-- ===== src/Relocate/Rounding.antt =====
-- relocate.rs: `round_up` gives the least multiple, or none below 2 ^ 64.
use zapbrew.Base.{
  ℕ, suc, ◌+◌, ◌-◌, ◌*◌, ◌/◌, ◌%◌, ◌<◌, ◌≤◌, false, none, some, if◌then◌else◌, ltb, ◌==◌, ◌≡◌, ◌↔◌,
  refl, ◌∙◌, arith, ltb→lt, inl, inr, Bool-cases,
}
use native.Mathlib.Nat.{div-add-mod', mod-lt, mul-mod_left, div-lt_iff_lt-mul, mul-le-mul_right}
use zapbrew.Relocate.Bytes.{u64_mod, checked_mul, round_up}

module _ (value align : ℕ) (positive : 0 < align) where
  abbrev steps : ℕ
  steps = (value + (align - 1)) / align

  reached : (value ≤ steps * align) × (steps * align < value + align)
  reached =
      let whole = div-add-mod' (value + (align - 1)) align in
      let part = mod-lt (value + (align - 1)) positive in (omega arith, omega arith)

  -- No multiple that reaches the value takes fewer steps.
  least : (k : ℕ) → value ≤ k * align → steps * align ≤ k * align
  least k h =
      let next : (suc k) * align ≡ k * align + align = ground arith in
      let fewer : steps < suc k = (div-lt_iff_lt-mul positive).1 (omega arith) in
      mul-le-mul_right align (omega arith)

  round_up-eq-if :
      round_up value align ≡ (if ltb (steps * align) u64_mod then some (steps * align) else none)
  unfolding round_up checked_mul
  round_up-eq-if = let no : (align == 0) ≡ false = ground arith in rw no refl

  some_multiple : (r : ℕ) → round_up value align ≡ some r → (r ≡ steps * align) × (r < u64_mod)
  some_multiple r h = elim (Bool-cases (ltb (steps * align) u64_mod)) [
    | inl below ↦
        let found : round_up value align ≡ some (steps * align) = rw below at round_up-eq-if in
        let equal : r ≡ steps * align = cc in
        (equal, rw equal (ltb→lt (steps * align) u64_mod below))
    | inr above ↦ let lost : round_up value align ≡ none = rw above at round_up-eq-if in absurd cc
  ]

  no_multiple : round_up value align ≡ none → u64_mod ≤ steps * align
  no_multiple h = elim (Bool-cases (ltb (steps * align) u64_mod)) [
    | inl below ↦
        let found : round_up value align ≡ some (steps * align) = rw below at round_up-eq-if in
        absurd cc
    | inr above ↦ ground arith
  ]

-- With a positive alignment `round_up` returns the least multiple of it that is not below the
-- value, and fails exactly when every such multiple is 2 ^ 64 or more.
pub round_up_least :
    (value align : ℕ)
    → 0 < align
    → ((r : ℕ)
        → round_up value align ≡ some r
        → (value ≤ r) × (r < value + align) × (r % align ≡ 0) × (r < u64_mod))
      × ((round_up value align ≡ none) ↔ ((k : ℕ) → value ≤ k * align → u64_mod ≤ k * align))
round_up_least value align positive = (
  (λ r h.
      let (same, below) = some_multiple value align positive r h in
      let (up, short) = reached value align positive in
      (omega arith, omega arith, rw same (mul-mod_left (steps value align positive) align), below)),
  (
    (λ h k reaches.
        let far = no_multiple value align positive h in
        let near = least value align positive k reaches in omega arith),
    (λ far.
        let (up, short) = reached value align positive in
        let beyond = far (steps value align positive) up in
        let no : ltb (steps value align positive * align) u64_mod ≡ false = ground arith in
        round_up-eq-if value align positive ∙ rw no refl),
  ),
)
