-- ===== src/Base/Decimal.antt =====
-- Printing and reading decimal numbers: `Display` of unsigned integers, and its inverse.
use Prim.Native.Nat.{ℕ, zero, suc, ◌+◌, ◌-◌, ◌*◌, ◌/◌, ◌%◌, ◌<◌}
use mathlib.Core.Path.{◌≡◌, refl, ◌∙◌}
use mathlib.Core.Bool.{true, false}
use mathlib.Core.Logic.{inl, inr, ◌≢◌}
use mathlib.Core.List.{[], ◌∷◌}
use mathlib.Core.Option.{some}
use native.Mathlib.Omega.{arith}
use zapbrew.Base.Tests.{◌==◌, if◌then◌else◌, Bool-cases}
use zapbrew.Base.Lists.{all}
use zapbrew.Base.Texts.{Text, is_ascii_digit, parse_digits, parse_u32, u32_mod}

-- The digits of `n` in front of `acc`, last digit first.
unfoldable pub decimal_loop : ℕ → ℕ → Text → Text
decimal_loop zero n acc = acc
decimal_loop (suc fuel) n acc =
    let more = decimal_loop fuel (n / 10) ((48 + n % 10) ∷ acc) in
    if n / 10 == 0 then (48 + n % 10) ∷ acc else more

unfoldable pub decimal : ℕ → Text
unfolding decimal_loop
decimal n = decimal_loop (suc n) n []

parse-decimal_loop :
    (fuel n : ℕ) (acc : Text)
    → n < fuel
    → n < u32_mod
    → parse_digits 0 (decimal_loop fuel n acc) ≡ parse_digits n acc
unfolding decimal_loop parse_digits
parse-decimal_loop zero n acc h k = absurd (omega arith)
parse-decimal_loop (suc fuel) n acc h k = elim (Bool-cases (n / 10 == 0)) [
  | inl last ↦ let small : n % 10 ≡ n = ground arith in rw last (ground arith)
  | inr more ↦ rw more (
      parse-decimal_loop fuel (n / 10) ((48 + n % 10) ∷ acc) (ground arith) (omega arith)
      ∙ digit_step n acc k)
]
  where
    digit_step :
        (n : ℕ) (acc : Text)
        → n < u32_mod
        → parse_digits (n / 10) ((48 + n % 10) ∷ acc) ≡ parse_digits n acc
    digit_step n acc k =
        let back : n / 10 * 10 + (48 + n % 10 - 48) ≡ n = omega arith in rw back (ground arith)

decimal_loop-digits :
    (fuel n : ℕ) (acc : Text)
    → all is_ascii_digit acc ≡ true
    → all is_ascii_digit (decimal_loop fuel n acc) ≡ true
unfolding decimal_loop is_ascii_digit
decimal_loop-digits zero n acc h = h
decimal_loop-digits (suc fuel) n acc h =
    ground (arith, decimal_loop-digits fuel (n / 10) ((48 + n % 10) ∷ acc))

pub decimal-digits : (n : ℕ) → all is_ascii_digit (decimal n) ≡ true
unfolding decimal
decimal-digits n = decimal_loop-digits (suc n) n [] refl

pub parse_digits-decimal : (n : ℕ) → n < u32_mod → parse_digits 0 (decimal n) ≡ some n
unfolding decimal parse_digits
parse_digits-decimal n h = parse-decimal_loop (suc n) n [] (omega arith) h

parse_u32-digits :
    (s : Text) → all is_ascii_digit s ≡ true → s ≢ [] → parse_u32 s ≡ parse_digits 0 s
unfolding parse_u32 is_ascii_digit
parse_u32-digits [] h k = absurd (k refl)
parse_u32-digits (c ∷ []) h k = refl
parse_u32-digits (c ∷ d ∷ s) h k = elim (Bool-cases (c == b'+')) [
  | inl plus ↦ cc (plus_no_digit c plus, h)
  | inr other ↦ rw other refl
]
  where
    plus_no_digit : (c : ℕ) → (c == b'+') ≡ true → is_ascii_digit c ≡ false
    plus_no_digit c h = ground arith

decimal_loop-nonempty : (fuel n : ℕ) (acc : Text) → acc ≢ [] → decimal_loop fuel n acc ≢ []
unfolding decimal_loop
decimal_loop-nonempty zero n acc h = h
decimal_loop-nonempty (suc fuel) n acc h =
    ground (arith, decimal_loop-nonempty fuel (n / 10) ((48 + n % 10) ∷ acc))

pub decimal-nonempty : (n : ℕ) → decimal n ≢ []
unfolding decimal decimal_loop
decimal-nonempty n = ground (arith, decimal_loop-nonempty n (n / 10) ((48 + n % 10) ∷ []))

-- A printed u32 reads back.
pub parse_u32-decimal : (n : ℕ) → n < u32_mod → parse_u32 (decimal n) ≡ some n
parse_u32-decimal n h =
    parse_u32-digits (decimal n) (decimal-digits n) (decimal-nonempty n) ∙ parse_digits-decimal n h
