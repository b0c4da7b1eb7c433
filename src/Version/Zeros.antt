-- ===== src/Version/Zeros.antt =====
-- What canonical sequences forget: trailing zeros, and zeros before a word.
use zapbrew.Base.{
  Text, Bool, true, false, List, [], ◌∷◌, ◌++◌, Option, none, some, if◌then◌else◌, arith, ◌≡◌, refl,
  ap, ◌∙◌, sym, text_eq, bytes, ◌&&◌, Bool-cases, inl, inr, is_empty, all, ◌==◌, ℕ, zero, suc, ◌≤◌,
  ◌<◌, length, slice, ltb, take, drop, ◌-◌,
}
use mathlib.Core.Bool.{false≢true}
use zapbrew.Version.Patterns.{
  Regexes, alpha_re, beta_re, pre_re, rc_re, patch_re, post_re, numeric_re,
}
use zapbrew.Version.Tokens.{
  Token, is_zero_digits, strip_leading_zeros, from_match, found, scan_loop, parse_tokens,
}
use zapbrew.Version.Canonical.{
  CanonToken, canonical, canonical_tokens, retain_all, retain, normalize_tokens, normalize_from,
  normalized, next_is_numeric, is_numeric_token,
}

normalize_from-append :
    (last : Option Token) (ts : List Token) (n : Text)
    → normalize_from last (ts ++ Token.numeric n ∷ [])
      ≡ normalize_from last ts ++ Token.numeric n ∷ []
unfolding normalize_from
normalize_from-append last [] n = refl
normalize_from-append last (t ∷ ts) n =
    ap (λ (r : List Token). normalized last t ∷ r)
      (normalize_from-append (some (normalized last t)) ts n)

retain_all-append :
    (ts : List Token) (n : Text)
    → is_zero_digits n ≡ true
    → retain_all (ts ++ Token.numeric n ∷ []) ≡ retain_all ts
unfolding retain_all
retain_all-append [] n h = ground arith
retain_all-append (t ∷ ts) n h = ap (retain t) (retain_all-append ts n h)

-- The last token is the word `B`.
abbrev pub ends_in_b : List Token → Bool
ends_in_b [] = false
ends_in_b (Token.string s ∷ []) = text_eq s (bytes "B")
ends_in_b (t ∷ ts) = ends_in_b ts

-- A trailing numeric zero, of any number of digits, behind tokens that do not end in the word `B`
-- does not change the canonical sequence, so `1.2` and `1.2.0` are the same version.
pub canonical_tokens-trailing_zero :
    (ts : List Token) (n : Text)
    → is_zero_digits n ≡ true
    → ends_in_b ts ≡ false
    → canonical_tokens (ts ++ Token.numeric n ∷ []) ≡ canonical_tokens ts
unfolding canonical_tokens
canonical_tokens-trailing_zero ts n h no_b =
    ap retain_all (normalize_from-append none ts n) ∙ retain_all-append (normalize_tokens ts) n h

-- A zero stands only before a numeric token.
abbrev pub ZerosInside : List CanonToken → Type 0
ZerosInside [] = Unit
ZerosInside (CanonToken.numeric [] ∷ cs) = (next_is_numeric cs ≡ true) × ZerosInside cs
ZerosInside (c ∷ cs) = ZerosInside cs

-- Each numeric token has a digit.
abbrev NonEmptyNumeric : Token → Type 0
NonEmptyNumeric (Token.numeric n) = is_empty n ≡ false
NonEmptyNumeric t = Unit

abbrev AllNonEmpty : List Token → Type 0
AllNonEmpty [] = Unit
AllNonEmpty (t ∷ ts) = NonEmptyNumeric t × AllNonEmpty ts

take-drop-nonempty :
    (s : Text) (b n : ℕ) → 0 < n → b < length s → is_empty (take n (drop b s)) ≡ false
take-drop-nonempty [] b n h k = absurd (omega arith)
take-drop-nonempty (c ∷ s) zero zero h k = absurd (omega arith)
take-drop-nonempty (c ∷ s) zero (suc n) h k = refl
take-drop-nonempty (c ∷ s) (suc b) n h k = take-drop-nonempty s b n h (omega arith)

slice-nonempty : (s : Text) (b e : ℕ) → b < e → e ≤ length s → is_empty (slice s b e) ≡ false
unfolding slice
slice-nonempty s b e h k = take-drop-nonempty s b (e - b) (omega arith) (omega arith)

if-NonEmpty :
    (b : Bool) (t u : Token)
    → NonEmptyNumeric t
    → NonEmptyNumeric u
    → NonEmptyNumeric (if b then t else u)
if-NonEmpty true t u h k = h
if-NonEmpty false t u h k = k

from_match-NonEmpty :
    (re : Regexes) (val : Text) → is_empty val ≡ false → NonEmptyNumeric (from_match re val)
unfolding from_match
from_match-NonEmpty re val h = if-NonEmpty (re.is_match alpha_re val) _ _ tt (
    if-NonEmpty (re.is_match beta_re val) _ _ tt (
      if-NonEmpty (re.is_match rc_re val) _ _ tt (
        if-NonEmpty (re.is_match pre_re val) _ _ tt (
          if-NonEmpty (re.is_match patch_re val) _ _ tt (
            if-NonEmpty (re.is_match post_re val) _ _ tt
              (if-NonEmpty (re.is_match numeric_re val) _ _ h tt))))))

scan_loop-AllNonEmpty :
    (re : Regexes) (fuel : ℕ) (s : Text) (idx : ℕ) → AllNonEmpty (scan_loop re fuel s idx)
unfolding scan_loop
scan_loop-AllNonEmpty re zero s idx = tt
scan_loop-AllNonEmpty re (suc fuel) s idx = elim (Bool-cases (ltb idx (length s))) [
  | inl more ↦ rw more (after (λ k. scan_loop-AllNonEmpty re fuel s k) (re.find_at s idx) refl)
  | inr done ↦ rw done tt
]
  where
    after :
        ((k : ℕ) → AllNonEmpty (scan_loop re fuel s k))
        → (o : Option (ℕ × ℕ)) → re.find_at s idx ≡ o
        → AllNonEmpty (found re s o (scan_loop re fuel s))
    after ih none e = tt
    after ih (some (b, k)) e =
        let (i, j, l) = re.find_at_bounds s idx b k e in
        (from_match-NonEmpty re (slice s b k) (slice-nonempty s b k j l), ih k)

normalize_from-AllNonEmpty :
    (last : Option Token) (ts : List Token) → AllNonEmpty ts → AllNonEmpty (normalize_from last ts)
unfolding normalize_from
normalize_from-AllNonEmpty last [] h = tt
normalize_from-AllNonEmpty last (t ∷ ts) h =
    (normalized-NonEmpty last t h.0, normalize_from-AllNonEmpty (some (normalized last t)) ts h.1)
  where
    normalized-NonEmpty :
        (last : Option Token) (t : Token) → NonEmptyNumeric t → NonEmptyNumeric (normalized last t)
    normalized-NonEmpty last (Token.string s) h =
        if-NonEmpty (text_eq s (bytes "B") && is_numeric_token last) _ _ tt tt
    normalized-NonEmpty last (Token.numeric n) h = h
    normalized-NonEmpty last _ h = tt

strip-all_zeros : (n : Text) → strip_leading_zeros n ≡ [] → all (λ b. b == b'0') n ≡ true
unfolding strip_leading_zeros
strip-all_zeros [] h = refl
strip-all_zeros (c ∷ n) h = ground (arith, strip-all_zeros n)

strip-zero_digits :
    (n : Text) → is_empty n ≡ false → strip_leading_zeros n ≡ [] → is_zero_digits n ≡ true
unfolding is_zero_digits
strip-zero_digits n h k = ground (arith, strip-all_zeros n k)

-- A numeric token may stand where its digits are not all zero, or a numeric token follows.
numeric-ZerosInside :
    (d : Text) (r : List CanonToken)
    → (d ≡ [] → next_is_numeric r ≡ true)
    → ZerosInside r
    → ZerosInside (CanonToken.numeric d ∷ r)
numeric-ZerosInside [] r h k = (h refl, k)
numeric-ZerosInside (c ∷ d) r h k = k

retain-ZerosInside :
    (t : Token) (r : List CanonToken) → NonEmptyNumeric t → ZerosInside r → ZerosInside (retain t r)
unfolding canonical
retain-ZerosInside (Token.numeric n) r h k = elim (Bool-cases (is_zero_digits n)) [
  | inl zero_token ↦ elim (Bool-cases (next_is_numeric r)) [
    | inl kept ↦ rw (zero_token, kept) (numeric-ZerosInside (strip_leading_zeros n) r (λ _. kept) k)
    | inr dropped ↦ rw (zero_token, dropped) k
  ]
  | inr other ↦ rw other (
      numeric-ZerosInside (strip_leading_zeros n) r
        (λ e. absurd (false≢true (sym other ∙ strip-zero_digits n h e))) k)
]
retain-ZerosInside _ r h k = k

retain_all-ZerosInside : (ts : List Token) → AllNonEmpty ts → ZerosInside (retain_all ts)
unfolding retain_all
retain_all-ZerosInside [] h = tt
retain_all-ZerosInside (t ∷ ts) h =
    retain-ZerosInside t (retain_all ts) h.0 (retain_all-ZerosInside ts h.1)

-- In the canonical sequence of a scanned text every numeric zero is followed by another numeric
-- token.
pub canonical_tokens-ZerosInside :
    (re : Regexes) (s : Text) → ZerosInside (canonical_tokens (parse_tokens re s))
unfolding canonical_tokens parse_tokens normalize_tokens
canonical_tokens-ZerosInside re s =
    retain_all-ZerosInside (normalize_tokens (parse_tokens re s))
      (normalize_from-AllNonEmpty none _ (scan_loop-AllNonEmpty re (length s) s 0))
