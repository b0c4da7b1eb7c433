-- ===== src/Version/Sample.antt =====
-- A scanner for the expressions of version.rs, to run the definitions on concrete texts.
use zapbrew.Base.{
  ℕ, suc, ◌+◌, ◌≤◌, ◌<◌, Text, bytes, Bool, true, false, ◌&&◌, ◌||◌, [], ◌∷◌, Option, none, some,
  if◌then◌else◌, is_ascii_digit, length, leb, ltb, ◌==◌, ◌≡◌, arith, text_eq, starts_with, map,
  drop, take_while,
}
use zapbrew.Version.Patterns.{
  Regexes, Pattern, head_re, alpha_re, beta_re, pre_re, rc_re, patch_re, post_re, numeric_re,
}

-- `(?i)`
unfoldable pub lower : ℕ → ℕ
lower c = if leb b'A' c && leb c b'Z' then c + 32 else c

is_letter : ℕ → Bool
is_letter c = leb b'a' c && leb c b'z'

-- The length of a match of a literal followed by digits, at least `least` of them.
literal : Text → ℕ → Text → Option ℕ
unfolding is_ascii_digit take_while
literal [] least s =
    let n = length (take_while is_ascii_digit s) in if leb least n then some n else none
literal (p ∷ ps) least [] = none
literal (p ∷ ps) least (c ∷ s) =
    let rest = literal ps least s in
    if p == c then (elim rest [ none ↦ none | some n ↦ some (suc n) ]) else none

first_of_two : Option ℕ → Option ℕ → Option ℕ
first_of_two (some n) o = some n
first_of_two none o = o

letters : Text → Option ℕ
unfolding is_letter take_while
letters s = let n = length (take_while is_letter s) in if n == 0 then none else some n

-- The alternatives of `SCAN_RE` at one place, in their order.
match_here : Text → Option ℕ
unfolding literal first_of_two letters
match_here s = first_of_two (literal (bytes "alpha") 0 s) (
    first_of_two (literal (bytes "a") 1 s) (
      first_of_two (literal (bytes "beta") 0 s) (
        first_of_two (literal (bytes "b") 1 s) (
          first_of_two (literal (bytes "pre") 0 s) (
            first_of_two (literal (bytes "rc") 0 s) (
              first_of_two (literal (bytes "p") 0 s) (
                first_of_two (literal (bytes ".post") 1 s)
                  (first_of_two (literal [] 1 s) (letters s)))))))))

find_from : Text → ℕ → Option (ℕ × ℕ)
unfolding match_here
find_from [] i = none
find_from (c ∷ s) i =
    let later = find_from s (suc i) in
    elim (match_here (c ∷ s)) [ none ↦ later | some n ↦ some (i, i + n) ]

-- A match that lies within its bounds, as every match of a regular expression does.
in_bounds : Text → ℕ → Option (ℕ × ℕ) → Option (ℕ × ℕ)
in_bounds s idx none = none
in_bounds s idx (some (b, e)) =
    if leb idx b && (ltb b e && leb e (length s)) then some (b, e) else none

in_bounds_sound :
    (s : Text) (idx b e : ℕ) (o : Option (ℕ × ℕ))
    → in_bounds s idx o ≡ some (b, e)
    → (idx ≤ b) × (b < e) × (e ≤ length s)
unfolding in_bounds
in_bounds_sound s idx b e none h = cc
in_bounds_sound s idx b e (some (x, y)) h = (ground arith, ground arith, ground arith)

whole : Text → ℕ → Text → Bool
unfolding literal
whole lit least s = elim (literal lit least s) [ none ↦ false | some n ↦ n == length s ]

unfoldable pub matches : Pattern → Text → Bool
unfolding whole starts_with text_eq
matches head_re s =
    text_eq s (bytes "HEAD")
    || (elim (literal (bytes "HEAD-") 0 s) [ none ↦ false | some n ↦ true ])
matches alpha_re s = whole (bytes "alpha") 0 (map lower s) || whole (bytes "a") 1 (map lower s)
matches beta_re s = whole (bytes "beta") 0 (map lower s) || whole (bytes "b") 1 (map lower s)
matches pre_re s = whole (bytes "pre") 0 (map lower s)
matches rc_re s = whole (bytes "rc") 0 (map lower s)
matches patch_re s = whole (bytes "p") 0 (map lower s)
matches post_re s = whole (bytes ".post") 1 (map lower s)
matches numeric_re s = whole [] 1 s

unfoldable pub finder : Text → ℕ → Option (ℕ × ℕ)
unfolding in_bounds find_from lower
finder s idx = in_bounds s idx (find_from (drop idx (map lower s)) idx)

pub finder-bounds :
    (s : Text) (idx b e : ℕ) → finder s idx ≡ some (b, e) → (idx ≤ b) × (b < e) × (e ≤ length s)
unfolding finder
finder-bounds s idx b e h = in_bounds_sound s idx b e _ h

-- For the tests; HEAD is matched with its case.
abbrev pub scanner : Regexes
scanner = record { is_match = matches; find_at = finder; find_at_bounds = finder-bounds }
