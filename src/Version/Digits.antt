-- ===== src/Version/Digits.antt =====
-- `cmp_digit_strings` is the comparison of the numbers that the digits spell, at any length.
use zapbrew.Base.{
  ℕ, ◌+◌, ◌-◌, ◌*◌, ◌^◌, ◌≤◌, ◌<◌, Text, true, [], ◌∷◌, length, compare, then_with, cmp_text, ◌==◌,
  is_ascii_digit, all, arith, ◌≡◌, refl, ap, ◌∙◌, inl, inr, Bool-cases,
}
use native.Mathlib.Nat.{pow-suc, pow-le-pow_right}
use mathlib.Core.Path.{ap₂}
use zapbrew.Version.Tokens.{strip_leading_zeros}
use zapbrew.Version.Canonical.{cmp_digit_strings, cmp_stripped}

-- The number that a text of decimal digits spells.
unfoldable pub value : Text → ℕ
value [] = 0
value (c ∷ cs) = (c - 48) * 10 ^ length cs + value cs

abbrev pub AllDigits : Text → Type 0
AllDigits s = all is_ascii_digit s ≡ true

value-strip : (s : Text) → value (strip_leading_zeros s) ≡ value s
unfolding value strip_leading_zeros
value-strip [] = refl
value-strip (c ∷ s) = elim (Bool-cases (c == 48)) [
  | inl zero_digit ↦
      let e : c ≡ 48 = ground arith in rw zero_digit (value-strip s ∙ rw e (omega arith))
  | inr other ↦ rw other refl
]

-- A leading digit outweighs all that follows it.
digit_room : (d v p : ℕ) → d ≤ 9 → v < p → d * p + v < p * 10
digit_room d v p h k = grind arith

digit_wins : (c d v w p : ℕ) → c < d → v < p → c * p + v < d * p + w
digit_wins c d v w p h k = grind arith

value-lt : (s : Text) → AllDigits s → value s < 10 ^ length s
unfolding value is_ascii_digit
value-lt [] h = omega arith
value-lt (c ∷ s) h =
    rw pow-suc
      (digit_room (c - 48) (value s) (10 ^ length s) (ground arith) (value-lt s (ground arith)))

digit_step :
    (c d v w p : ℕ)
    → 48 ≤ c
    → 48 ≤ d
    → v < p
    → w < p
    → then_with (compare c d) (compare v w) ≡ compare ((c - 48) * p + v) ((d - 48) * p + w)
unfolding then_with
digit_step c d v w p hc hd hv hw =
    ground (arith, digit_wins (c - 48) (d - 48) v w p, digit_wins (d - 48) (c - 48) w v p)

same_length :
    (a b : Text)
    → AllDigits a
    → AllDigits b
    → length a ≡ length b
    → cmp_text a b ≡ compare (value a) (value b)
unfolding value is_ascii_digit cmp_text
same_length [] [] ha hb e = refl
same_length [] (d ∷ b) ha hb e = absurd (omega arith)
same_length (c ∷ a) [] ha hb e = absurd (omega arith)
same_length (c ∷ a) (d ∷ b) ha hb e =
    let shorter : length a ≡ length b = omega arith in
    let weights : 10 ^ length a ≡ 10 ^ length b = ap (λ (n : ℕ). 10 ^ n) shorter in
    let room : value b < 10 ^ length a = rw weights (value-lt b (ground arith)) in
    let step =
      digit_step c d (value a) (value b) (10 ^ length a) (ground arith) (ground arith)
        (value-lt a (ground arith)) room in
    let rest : cmp_text a b ≡ compare (value a) (value b) =
      same_length a b (ground arith) (ground arith) shorter in
    rw rest (
      step
      ∙ ap (λ (p : ℕ). compare ((c - 48) * 10 ^ length a + value a) ((d - 48) * p + value b))
          weights)

-- A text without leading zeros.
abbrev NoLeadingZero : Text → Type 0
NoLeadingZero [] = Unit
NoLeadingZero (c ∷ s) = 48 < c

-- More digits, the first not zero, spell a larger number.
longer_wins :
    (a b : Text)
    → AllDigits a
    → AllDigits b
    → NoLeadingZero b
    → length a < length b
    → value a < value b
unfolding value
longer_wins a [] ha hb z h = absurd (omega arith)
longer_wins a (d ∷ b) ha hb z h =
    let room : value a < 10 ^ length a = value-lt a ha in
    let grows : 10 ^ length a ≤ 10 ^ length b = pow-le-pow_right (omega arith) (omega arith) in
    leading d (value a) (value b) (10 ^ length b) z (omega arith)
  where
    leading : (d v w p : ℕ) → 48 < d → v < p → v < (d - 48) * p + w
    leading d v w p h k = grind arith

cmp_stripped-value :
    (a b : Text)
    → AllDigits a
    → AllDigits b
    → NoLeadingZero a
    → NoLeadingZero b
    → cmp_stripped a b ≡ compare (value a) (value b)
unfolding then_with
cmp_stripped-value [] [] ha hb za zb = ground arith
cmp_stripped-value [] (d ∷ b) ha hb za zb =
    ground (arith, longer_wins [] (d ∷ b) ha hb zb (omega arith))
cmp_stripped-value (c ∷ a) [] ha hb za zb =
    ground (arith, longer_wins [] (c ∷ a) hb ha za (omega arith))
cmp_stripped-value (c ∷ a) (d ∷ b) ha hb za zb = ground (
  arith,
  longer_wins (c ∷ a) (d ∷ b) ha hb zb,
  longer_wins (d ∷ b) (c ∷ a) hb ha za,
  same_length (c ∷ a) (d ∷ b) ha hb,
)

strip-AllDigits : (s : Text) → AllDigits s → AllDigits (strip_leading_zeros s)
unfolding strip_leading_zeros
strip-AllDigits [] h = h
strip-AllDigits (c ∷ s) h = ground (arith, strip-AllDigits s)

strip-NoLeadingZero : (s : Text) → AllDigits s → NoLeadingZero (strip_leading_zeros s)
unfolding strip_leading_zeros is_ascii_digit
strip-NoLeadingZero [] h = tt
strip-NoLeadingZero (c ∷ s) h = elim (Bool-cases (c == 48)) [
  | inl zero_digit ↦ rw zero_digit (strip-NoLeadingZero s (ground arith))
  | inr other ↦ rw other (ground arith)
]

-- Digit strings of any length compare as the numbers that they spell.
pub cmp_digit_strings-value :
    (a b : Text) → AllDigits a → AllDigits b → cmp_digit_strings a b ≡ compare (value a) (value b)
unfolding cmp_digit_strings
cmp_digit_strings-value a b ha hb =
    cmp_stripped-value (strip_leading_zeros a) (strip_leading_zeros b) (strip-AllDigits a ha)
      (strip-AllDigits b hb) (strip-NoLeadingZero a ha) (strip-NoLeadingZero b hb)
    ∙ ap₂ compare (value-strip a) (value-strip b)
