-- ===== src/Autoremove/Fixpoint.antt =====
-- autoremove.rs: the fixpoint is reached, and it is the least set that the rule of the rounds
-- closes.
use zapbrew.Base.{
  ℕ, zero, suc, ◌<◌, Text, Bool, true, false, ◌&&◌, not, List, [], ◌∷◌, ◌++◌, map, some, is_empty,
  keep, all, length, Occurs, Occurs-append_cases, ◌≡◌, ◌↔◌, refl, ap, sym, ◌∙◌, arith, inl, inr,
  Bool-cases,
}
use mathlib.Core.Path.{subst}
use zapbrew.Autoremove.{
  InstalledFormula, InstalledState, holds, is_addition, additions, requested_or_true, dependents_of,
  fixpoint_loop, fixpoint,
}
use zapbrew.Autoremove.Rounds.{holds_iff, missing, missing-le, missing-added}

-- A formula that nobody asked for and that only formulae of the same kind need.
pub data Orphan (state : InstalledState) (requested : List (Text × Bool)) : Text → Type 0 where
  orphan :
      {name : Text} (f : InstalledFormula)
      → Occurs f state.formulae
      → name ≡ f.name
      → requested_or_true requested f.name ≡ false
      → ((d : InstalledFormula)
          → Occurs d (dependents_of state f.name)
          → Orphan state requested d.name)
      → Orphan state requested name

all_iff :
    (p : InstalledFormula → Bool) (fs : List InstalledFormula)
    → (all p fs ≡ true) ↔ ((f : InstalledFormula) → Occurs f fs → p f ≡ true)
all_iff p [] = (λ h f nowhere. absurd nowhere, λ h. refl)
all_iff p (f ∷ fs) = elim (Bool-cases (p f)) [
  | inl yes_here ↦ (
    λ h g there. elim there [
      | inl same ↦ ap p same ∙ yes_here
      | inr later ↦ (all_iff p fs).0 (rw yes_here at h) g later
    ],
    λ h. rw yes_here ((all_iff p fs).1 λ g later. h g (inr later)),
  )
  | inr no_here ↦ (
    λ h. let both : false ≡ true = rw no_here at h in absurd cc,
    λ h. let both : false ≡ true = sym no_here ∙ h f (inl refl) in absurd cc,
  )
]

Occurs-keep :
    (p : InstalledFormula → Bool) (fs : List InstalledFormula) (f : InstalledFormula)
    → Occurs f (keep p fs)
    → Occurs f fs × (p f ≡ true)
Occurs-keep p [] f h = absurd h
Occurs-keep p (g ∷ fs) f h = elim (Bool-cases (p g)) [
  | inl kept ↦ elim (rw kept at h) [
    | inl same ↦ (inl same, ap p same ∙ kept)
    | inr later ↦ let (there, holds_there) = Occurs-keep p fs f later in (inr there, holds_there)
  ]
  | inr left ↦
      let (there, holds_there) = Occurs-keep p fs f (rw left at h) in (inr there, holds_there)
]

keep-Occurs :
    (p : InstalledFormula → Bool) (fs : List InstalledFormula) (f : InstalledFormula)
    → Occurs f fs
    → p f ≡ true
    → Occurs f (keep p fs)
keep-Occurs p [] f h kept = absurd h
keep-Occurs p (g ∷ fs) f (inl same) kept =
    let here : p g ≡ true = ap p (sym same) ∙ kept in rw here (inl same)
keep-Occurs p (g ∷ fs) f (inr h) kept = elim (Bool-cases (p g)) [
  | inl here ↦ rw here (inr (keep-Occurs p fs f h kept))
  | inr left ↦ rw left (keep-Occurs p fs f h kept)
]

abbrev names_of : List InstalledFormula → List Text
names_of fs = map (λ (f : InstalledFormula). f.name) fs

Occurs-names_of :
    (fs : List InstalledFormula) (name : Text)
    → Occurs name (names_of fs)
    → (f : InstalledFormula) × Occurs f fs × (name ≡ f.name)
Occurs-names_of [] name h = absurd h
Occurs-names_of (f ∷ fs) name (inl same) = (f, inl refl, same)
Occurs-names_of (f ∷ fs) name (inr h) =
    let (g, there, same) = Occurs-names_of fs name h in (g, inr there, same)

names_of-Occurs :
    (fs : List InstalledFormula) (f : InstalledFormula) → Occurs f fs → Occurs f.name (names_of fs)
names_of-Occurs [] f h = absurd h
names_of-Occurs (g ∷ fs) f (inl same) = inl (ap (λ (x : InstalledFormula). x.name) same)
names_of-Occurs (g ∷ fs) f (inr h) = inr (names_of-Occurs fs f h)

-- Three tests of a round, apart.
and_true : (a b c : Bool) → (a && b && c) ≡ true → (a ≡ true) × (b ≡ true) × (c ≡ true)
and_true true true true h = (refl, refl, refl)
and_true true true false h = absurd cc
and_true true false c h = absurd cc
and_true false b c h = absurd cc

false_of_not : (a : Bool) → not a ≡ true → a ≡ false
false_of_not true h = absurd cc
false_of_not false h = refl

module _ (state : InstalledState) (requested : List (Text × Bool)) where
  abbrev AllOrphans : List Text → Type 0
  AllOrphans removable = (name : Text) → Occurs name removable → Orphan state requested name

  is_addition-split :
      (removable : List Text) (f : InstalledFormula)
      → is_addition state requested removable f ≡ true
      → (holds removable f.name ≡ false)
        × (requested_or_true requested f.name ≡ false)
        × (all (λ (d : InstalledFormula). holds removable d.name) (dependents_of state f.name)
            ≡ true)
  unfolding is_addition
  is_addition-split removable f h =
      let (absent, unasked, covered) =
        and_true (not (holds removable f.name)) (not (requested_or_true requested f.name))
          (all (λ (d : InstalledFormula). holds removable d.name) (dependents_of state f.name)) h in
      (
        false_of_not (holds removable f.name) absent,
        false_of_not (requested_or_true requested f.name) unasked,
        covered,
      )

  -- What a round adds is orphaned, if what is there is.
  additions-Orphan :
      (removable : List Text)
      → AllOrphans removable
      → AllOrphans (removable ++ additions state requested removable)
  unfolding additions
  additions-Orphan removable old name h =
      elim (Occurs-append_cases name removable (additions state requested removable) h) [
        | inl before ↦ old name before
        | inr new ↦
            let (f, kept, same) =
              Occurs-names_of (keep (is_addition state requested removable) state.formulae) name
                new in
            let (there, adds) =
              Occurs-keep (is_addition state requested removable) state.formulae f kept in
            let (absent, unasked, covered) = is_addition-split removable f adds in
            orphan f there same unasked λ d needed. old d.name (
              (holds_iff removable d.name).0 (
                (all_iff (λ (x : InstalledFormula). holds removable x.name)
                    (dependents_of state f.name)).0
                  covered d needed))
      ]

  -- A round that adds something leaves fewer formulae.
  round-missing :
      (removable : List Text)
      → is_empty (additions state requested removable) ≡ false
      → missing (removable ++ additions state requested removable) state.formulae
        < missing removable state.formulae
  unfolding additions
  round-missing removable some_added =
      let (n, ns, shape) = nonempty (additions state requested removable) some_added in
      let first : Occurs n (additions state requested removable) =
        subst (λ (l : List Text). Occurs n l) (sym shape) (inl refl) in
      let (f, kept, same) =
        Occurs-names_of (keep (is_addition state requested removable) state.formulae) n first in
      let (there, adds) =
        Occurs-keep (is_addition state requested removable) state.formulae f kept in
      let (absent, unasked, covered) = is_addition-split removable f adds in
      missing-added removable (additions state requested removable) state.formulae f there absent
        (subst (λ (m : Text). Occurs m (additions state requested removable)) same first)
    where
      nonempty : (l : List Text) → is_empty l ≡ false → (n : Text) × (ns : List Text) × (l ≡ n ∷ ns)
      nonempty [] h = absurd cc
      nonempty (n ∷ ns) h = (n, ns, refl)

  fixpoint_loop-AllOrphans :
      (fuel : ℕ) (removable : List Text)
      → missing removable state.formulae < fuel
      → AllOrphans removable
      → (result : List Text) × (fixpoint_loop fuel state requested removable ≡ some result)
        × AllOrphans result
        × (is_empty (additions state requested result) ≡ true)
  unfolding fixpoint_loop
  fixpoint_loop-AllOrphans zero removable enough old = absurd (omega arith)
  fixpoint_loop-AllOrphans (suc fuel) removable enough old =
      elim (Bool-cases (is_empty (additions state requested removable))) [
        | inl done ↦ (removable, rw (done, fixpoint_loop) refl, old, done)
        | inr more ↦
            let fewer = round-missing removable more in
            let (result, ends, orphans, closed) =
              fixpoint_loop-AllOrphans fuel (removable ++ additions state requested removable)
                (omega arith) (additions-Orphan removable old) in
            (result, rw (more, fixpoint_loop) ends, orphans, closed)
      ]

  -- A set to which no round adds holds every orphan.
  closed-Orphan :
      (result : List Text)
      → is_empty (additions state requested result) ≡ true
      → (name : Text) → Orphan state requested name
      → Occurs name result
  unfolding additions is_addition
  closed-Orphan result closed name (orphan f there same unasked others) =
      let covered : all (λ (d : InstalledFormula). holds result d.name) (dependents_of state f.name)
          ≡ true =
        (all_iff (λ (d : InstalledFormula). holds result d.name) (dependents_of state f.name)).1
          λ d needed.
            (holds_iff result d.name).1 (closed-Orphan result closed d.name (others d needed)) in
      elim (Bool-cases (holds result f.name)) [
        | inl held ↦
            subst (λ (m : Text). Occurs m result) (sym same) ((holds_iff result f.name).0 held)
        | inr absent ↦
            let adds : is_addition state requested result f ≡ true =
              rw (absent, unasked, covered, is_addition) refl in
            let here =
              names_of-Occurs (keep (is_addition state requested result) state.formulae) f
                (keep-Occurs (is_addition state requested result) state.formulae f there adds) in
            absurd (none_in (additions state requested result) f.name closed here)
      ]
    where
      none_in : (l : List Text) (m : Text) → is_empty l ≡ true → Occurs m l → ⊥
      none_in [] m h nowhere = nowhere
      none_in (x ∷ l) m h there = absurd cc

-- The rounds come to an end, and the set that they end with holds exactly the orphans: the formulae
-- that nobody asked for and that only orphans need, in finitely many steps. A formula without an
-- entry counts as asked for.
pub fixpoint-Orphan :
    (state : InstalledState) (requested : List (Text × Bool))
    → (removable : List Text) × (fixpoint state requested ≡ some removable)
      × ((name : Text) → Occurs name removable ↔ Orphan state requested name)
unfolding fixpoint
fixpoint-Orphan state requested =
    let bound = missing-le [] state.formulae in
    let (result, ends, orphans, closed) =
      fixpoint_loop-AllOrphans state requested (suc (length state.formulae)) [] (omega arith)
        (λ name nowhere. absurd nowhere) in
    (
      result,
      ends,
      λ name. (λ h. orphans name h, λ h. closed-Orphan state requested result closed name h),
    )
