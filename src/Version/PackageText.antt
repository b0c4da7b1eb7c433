-- ===== src/Version/PackageText.antt =====
-- Printing and parsing of package versions (version.rs).
use zapbrew.Base.{
  ℕ, ◌<◌, ◌++◌, Text, true, false, [], ◌∷◌, Option, none, some, ok, all, is_ascii_digit,
  rsplit_once, parse_u32, ◌≡◌, ◌≢◌, u32_mod, decimal, arith, parse_u32-decimal, decimal-digits,
  decimal-nonempty, Lacks, rsplit_once_sound, rsplit_once-append, refl, inl, inr, ap, ◌∙◌,
  parse_digits, ◌+◌, ◌-◌, ◌*◌, ◌⊎◌, Bool-cases, Option-cases, some-inj,
}
use zapbrew.Version.Patterns.{Regexes}
use zapbrew.Version.{parse}
use zapbrew.Version.Order.{raw-parse}
use zapbrew.Version.Package.{
  PkgVersion, from_str, to_string, split_revision, checked_split, from_split, with_revision,
}

digits-Lacks : (s : Text) → all is_ascii_digit s ≡ true → Lacks b'_' s
unfolding is_ascii_digit
digits-Lacks [] h = tt
digits-Lacks (c ∷ s) h = (ground arith, digits-Lacks s (ground arith))

-- A revision that ends a text is the one that `split_revision` finds.
split_revision-append :
    (prefix suffix : Text)
    → prefix ≢ []
    → suffix ≢ []
    → all is_ascii_digit suffix ≡ true
    → split_revision (prefix ++ (b'_' ∷ suffix)) ≡ some (prefix, suffix)
unfolding split_revision
split_revision-append [] suffix first last digits = absurd (first refl)
split_revision-append (c ∷ raw) [] first last digits = absurd (last refl)
split_revision-append (c ∷ raw) (x ∷ d) first last digits =
    ap checked_split (rsplit_once-append b'_' (c ∷ raw) (x ∷ d) (digits-Lacks (x ∷ d) digits))
    ∙ rw digits refl

raw-parse_lem : (re : Regexes) (s : Text) → (parse re s).raw ≡ s
unfolding parse
raw-parse_lem re s = raw-parse re s false

to_string-revised :
    (re : Regexes) (s : Text) (n : ℕ)
    → 0 < n
    → to_string (record { version = parse re s; revision = n }) ≡ s ++ (b'_' ∷ decimal n)
unfolding to_string
to_string-revised re s n h = ground (arith, raw-parse_lem re s)

-- A package version with a non-empty version text and a positive 32-bit revision parses back from
-- what it prints.
pub from_str-to_string :
    (re : Regexes) (c : ℕ) (raw : Text) (n : ℕ)
    → 0 < n
    → n < u32_mod
    → from_str re (to_string (record { version = parse re (c ∷ raw); revision = n }))
      ≡ ok (record { version = parse re (c ∷ raw); revision = n })
unfolding from_str
from_str-to_string re c raw n h k = rw (to_string-revised re (c ∷ raw) n h) (
    ap (from_split re _) (
      split_revision-append (c ∷ raw) (decimal n) (λ e. cc) (decimal-nonempty n) (decimal-digits n))
    ∙ ap (with_revision re _ (c ∷ raw)) (parse_u32-decimal n k))

parse_digits-bound :
    (acc : ℕ) (s : Text) (n : ℕ) → acc < u32_mod → parse_digits acc s ≡ some n → n < u32_mod
unfolding parse_digits
parse_digits-bound acc [] n h e = ground arith
parse_digits-bound acc (c ∷ s) n h e = ground (arith, parse_digits-bound (acc * 10 + (c - 48)) s n)

parse_u32-bound : (s : Text) (n : ℕ) → parse_u32 s ≡ some n → n < u32_mod
unfolding parse_u32
parse_u32-bound [] n h = cc
parse_u32-bound (c ∷ []) n h = parse_digits-bound 0 (c ∷ []) n (omega arith) h
parse_u32-bound (c ∷ d ∷ s) n h =
    ground (arith, parse_digits-bound 0 (d ∷ s) n, parse_digits-bound 0 (c ∷ d ∷ s) n)

-- The text is a prefix and a suffix of decimal digits, both not empty, around a `_`.
abbrev pub Splits : Text → Text → Text → Type 0
Splits s prefix suffix =
    (s ≡ prefix ++ (b'_' ∷ suffix))
    × (prefix ≢ [])
    × (suffix ≢ [])
    × (all is_ascii_digit suffix ≡ true)

-- What an accepted package version is made of: where the text splits, the version of its prefix and
-- the number that its suffix is, and else the version of the whole text and revision 0.
abbrev pub Made : Regexes → Text → PkgVersion → Type 0
Made re s p =
    ((p ≡ record { version = parse re s; revision = 0 })
      × ((prefix suffix : Text) → ¬ Splits s prefix suffix))
    ⊎ ((prefix : Text) × (suffix : Text) × Splits s prefix suffix
        × (parse_u32 suffix ≡ some p.revision)
        × (p.version ≡ parse re prefix))

from_split-Made :
    (re : Regexes) (s : Text) (o : Option (Text × Text)) (p : PkgVersion)
    → ((prefix suffix : Text) → o ≡ some (prefix, suffix) → Splits s prefix suffix)
    → (o ≡ none → (prefix suffix : Text) → ¬ Splits s prefix suffix)
    → from_split re s o ≡ ok p
    → (p.revision < u32_mod) × Made re s p
from_split-Made re s none p sound whole h =
    let same : p ≡ record { version = parse re s; revision = 0 } = cc in
    (rw (ap (λ (q : PkgVersion). q.revision) same) (omega arith), inl (same, whole refl))
from_split-Made re s (some (prefix, suffix)) p sound whole h = numbered (parse_u32 suffix) refl h
  where
    numbered :
        (o : Option ℕ)
        → parse_u32 suffix ≡ o
        → with_revision re s prefix o ≡ ok p
        → (p.revision < u32_mod) × Made re s p
    numbered none e k = cc
    numbered (some n) e k =
        let same : p ≡ record { version = parse re prefix; revision = n } = cc in
        let number : p.revision ≡ n = ap (λ (q : PkgVersion). q.revision) same in
        (
          rw number (parse_u32-bound suffix n e),
          inr (
            prefix,
            suffix,
            sound prefix suffix refl,
            cc (e, number),
            ap (λ (q : PkgVersion). q.version) same,
          ),
        )

checked_split-eq-some :
    (o : Option (Text × Text)) (prefix suffix : Text)
    → checked_split o ≡ some (prefix, suffix)
    → (o ≡ some (prefix, suffix))
      × (prefix ≢ [])
      × (suffix ≢ [])
      × (all is_ascii_digit suffix ≡ true)
checked_split-eq-some none prefix suffix k = absurd cc
checked_split-eq-some (some ([], u)) prefix suffix k = absurd cc
checked_split-eq-some (some (c ∷ q, [])) prefix suffix k = absurd cc
checked_split-eq-some (some (c ∷ q, d ∷ u)) prefix suffix k =
    elim (Bool-cases (all is_ascii_digit (d ∷ u))) [
      | inr other ↦
          let no : ◌≡◌ {A = Option (Text × Text)} none (some (prefix, suffix)) = rw other at k in
          absurd cc
      | inl digits ↦
          let same : ◌≡◌ {A = Text × Text} (c ∷ q, d ∷ u) (prefix, suffix) =
            some-inj (c ∷ q, d ∷ u) (prefix, suffix) (rw digits at k) in
          let first : c ∷ q ≡ prefix = ap (λ (t : Text × Text). t.0) same in
          let last : d ∷ u ≡ suffix = ap (λ (t : Text × Text). t.1) same in
          (
            ap (λ (t : Text × Text). some t) same,
            (λ e. let no : c ∷ q ≡ [] = first ∙ e in absurd cc),
            (λ e. let no : d ∷ u ≡ [] = last ∙ e in absurd cc),
            rw (← last) digits,
          )
    ]

split_revision_sound :
    (s prefix suffix : Text) → split_revision s ≡ some (prefix, suffix) → Splits s prefix suffix
unfolding split_revision
split_revision_sound s prefix suffix h =
    let (found, first, last, digits) = checked_split-eq-some (rsplit_once b'_' s) prefix suffix h in
    (rsplit_once_sound b'_' s prefix suffix found, first, last, digits)

-- Where nothing is split off, no revision ends the text.
pub split_revision-none :
    (s prefix suffix : Text) → split_revision s ≡ none → ¬ Splits s prefix suffix
split_revision-none s prefix suffix h (whole, first, last, digits) =
    let found = split_revision-append prefix suffix first last digits in
    let found' : split_revision s ≡ some (prefix, suffix) = rw whole found in absurd cc

-- What no revision ends is not split.
split_revision-whole :
    (s : Text) → ((prefix suffix : Text) → ¬ Splits s prefix suffix) → split_revision s ≡ none
split_revision-whole s h = elim (Option-cases (split_revision s)) [
  | inl miss ↦ miss
  | inr ((prefix, suffix), found) ↦
      absurd (h prefix suffix (split_revision_sound s prefix suffix found))
]

-- `from_str` accepts only a text that is not empty, and the revision is below 2 ^ 32. Where the
-- text is a prefix and decimal digits, both not empty, around its last `_`, the result has the
-- version of the prefix and the revision of the digits; where it is not, the version of the whole
-- text and revision 0.
pub from_str-accepts :
    (re : Regexes) (s : Text) (p : PkgVersion)
    → from_str re s ≡ ok p
    → (s ≢ []) × (p.revision < u32_mod) × Made re s p
unfolding from_str
from_str-accepts re [] p h = cc
from_str-accepts re (c ∷ s) p h =
    let (bound, parts) =
      from_split-Made re (c ∷ s) (split_revision (c ∷ s)) p
        (λ prefix suffix e. split_revision_sound (c ∷ s) prefix suffix e)
        (λ e prefix suffix. split_revision-none (c ∷ s) prefix suffix e) h in
    ((λ e. cc), bound, parts)

-- A package version with revision 0 parses back from what it prints, if its version text is not
-- empty and is not a prefix and decimal digits, both not empty, around a `_`.
pub from_str-to_string_unrevised :
    (re : Regexes) (c : ℕ) (raw : Text)
    → ((prefix suffix : Text) → ¬ Splits (c ∷ raw) prefix suffix)
    → from_str re (to_string (record { version = parse re (c ∷ raw); revision = 0 }))
      ≡ ok (record { version = parse re (c ∷ raw); revision = 0 })
unfolding from_str to_string parse
from_str-to_string_unrevised re c raw h =
    ap (from_split re (c ∷ raw)) (split_revision-whole (c ∷ raw) h)
