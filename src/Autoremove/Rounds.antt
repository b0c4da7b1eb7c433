-- ===== src/Autoremove/Rounds.antt =====
-- autoremove.rs: each round that adds something leaves fewer formulae, so the loop ends.
use zapbrew.Base.{
  ℕ, ◌+◌, ◌<◌, ◌≤◌, Text, text_eq, text_eq_iff, true, false, List, [], ◌∷◌, ◌++◌, if◌then◌else◌,
  length, Occurs, Occurs-append_left, Occurs-append_right, ◌≡◌, ◌↔◌, refl, ap, sym, ◌∙◌, arith, inl,
  inr, Bool-cases,
}
use zapbrew.Autoremove.{InstalledFormula, holds}

-- The test of membership decides whether the name stands in the list.
pub holds_iff : (names : List Text) (name : Text) → (holds names name ≡ true) ↔ Occurs name names
holds_iff [] name = (λ h. cc, λ h. absurd h)
holds_iff (n ∷ names) name = elim (Bool-cases (text_eq name n)) [
  | inl same ↦ (λ h. inl ((text_eq_iff name n).0 same), λ h. rw same refl)
  | inr other ↦ (
    λ h. inr ((holds_iff names name).0 (rw other at h)),
    λ h. rw other (
        (holds_iff names name).1 (elim h [
          | inl equal ↦
              let both : false ≡ true = sym other ∙ (text_eq_iff name n).1 equal in absurd cc
          | inr later ↦ later
        ])),
  )
]

-- How many formulae of a list the set does not hold.
abbrev pub missing : List Text → List InstalledFormula → ℕ
missing removable [] = 0
missing removable (f ∷ fs) = (if holds removable f.name then 0 else 1) + missing removable fs

pub missing-le :
    (removable : List Text) (fs : List InstalledFormula) → missing removable fs ≤ length fs
missing-le removable [] = omega arith
missing-le removable (f ∷ fs) = elim (Bool-cases (holds removable f.name)) [
  | inl there ↦ rw there (omega (arith, missing-le removable fs))
  | inr absent ↦ rw absent (omega (arith, missing-le removable fs))
]

holds-append :
    (removable added : List Text) (name : Text)
    → holds removable name ≡ true
    → holds (removable ++ added) name ≡ true
holds-append removable added name h =
    (holds_iff (removable ++ added) name).1
      (Occurs-append_left name removable added ((holds_iff removable name).0 h))

missing-append :
    (removable added : List Text) (fs : List InstalledFormula)
    → missing (removable ++ added) fs ≤ missing removable fs
missing-append removable added [] = omega arith
missing-append removable added (f ∷ fs) = elim (Bool-cases (holds removable f.name)) [
  | inl there ↦
      rw (there, holds-append removable added f.name there)
        (omega (arith, missing-append removable added fs))
  | inr absent ↦ elim (Bool-cases (holds (removable ++ added) f.name)) [
    | inl new ↦ rw (absent, new) (omega (arith, missing-append removable added fs))
    | inr still ↦ rw (absent, still) (omega (arith, missing-append removable added fs))
  ]
]

-- A name of the list that is added makes one formula less.
pub missing-added :
    (removable added : List Text) (fs : List InstalledFormula) (f : InstalledFormula)
    → Occurs f fs
    → holds removable f.name ≡ false
    → Occurs f.name added
    → missing (removable ++ added) fs < missing removable fs
missing-added removable added [] f h absent new = absurd h
missing-added removable added (g ∷ fs) f (inl same) absent new =
    let gone : holds removable g.name ≡ false =
      ap (λ (x : InstalledFormula). holds removable x.name) (sym same) ∙ absent in
    let held : holds (removable ++ added) g.name ≡ true =
      ap (λ (x : InstalledFormula). holds (removable ++ added) x.name) (sym same)
      ∙ (holds_iff (removable ++ added) f.name).1
          (Occurs-append_right f.name removable added new) in
    rw (gone, held) (omega (arith, missing-append removable added fs))
missing-added removable added (g ∷ fs) f (inr h) absent new =
    let fewer = missing-added removable added fs f h absent new in
    elim (Bool-cases (holds removable g.name)) [
      | inl there ↦ rw (there, holds-append removable added g.name there) (omega arith)
      | inr gone ↦ elim (Bool-cases (holds (removable ++ added) g.name)) [
        | inl now ↦ rw (gone, now) (omega arith)
        | inr still ↦ rw (gone, still) (omega arith)
      ]
    ]
