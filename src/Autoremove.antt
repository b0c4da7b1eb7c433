-- ===== src/Autoremove.antt =====
-- crates/zapbrew-ops/src/autoremove.rs, with `dependents_of` of state.rs: which installed formulae
-- nothing needs any more. Receipts are read elsewhere: an installed state is given.
pub mod Rounds
pub mod Fixpoint
mod Tests
use zapbrew.Base.{
  ℕ, zero, suc, Text, text_eq, Bool, true, false, ◌&&◌, ◌||◌, not, List, [], ◌∷◌, ◌++◌, map, Option,
  none, some, if◌then◌else◌, is_empty, get_last?, keep, all, any, length, split,
}

-- The fields that are read: the full names of the runtime dependencies of a receipt.
pub record InstalledKeg : Type 0 where
  pub runtime_dependencies : Option (List Text)

pub record InstalledFormula : Type 0 where
  pub name : Text
  pub kegs : List InstalledKeg

-- The values of the map, in the order of their keys.
pub record InstalledState : Type 0 where
  pub formulae : List InstalledFormula

-- `rsplit('/').next()`
unfoldable pub last_piece : Text → Text
unfolding split
last_piece s = elim (get_last? (split b'/' s)) [ none ↦ [] | some piece ↦ piece ]

unfoldable pub dependency_matches : Text → Text → Bool
unfolding last_piece text_eq
dependency_matches recorded requested =
    text_eq recorded requested || text_eq (last_piece recorded) (last_piece requested)

abbrev pub dependencies_or_none : Option (List Text) → List Text
dependencies_or_none none = []
dependencies_or_none (some names) = names

abbrev pub needs : Text → InstalledFormula → Bool
needs name formula =
    any
      (λ (keg : InstalledKeg).
        any (λ (full_name : Text). dependency_matches full_name name)
          (dependencies_or_none keg.runtime_dependencies))
      formula.kegs

unfoldable pub dependents_of : InstalledState → Text → List InstalledFormula
unfolding dependency_matches
dependents_of state name = keep (needs name) state.formulae

-- A `BTreeSet` as the list of its elements.
abbrev pub holds : List Text → Text → Bool
holds names name = any (text_eq name) names

-- The value for a name, or true.
unfoldable pub requested_or_true : List (Text × Bool) → Text → Bool
unfolding text_eq
requested_or_true [] name = true
requested_or_true ((key, value) ∷ requested) name =
    let rest = requested_or_true requested name in if text_eq key name then value else rest

-- What one round adds for.
unfoldable pub is_addition :
    InstalledState → List (Text × Bool) → List Text → InstalledFormula → Bool
unfolding dependents_of requested_or_true text_eq
is_addition state requested removable formula =
    not (holds removable formula.name)
    && not (requested_or_true requested formula.name)
    && all (λ (dependent : InstalledFormula). holds removable dependent.name)
        (dependents_of state formula.name)

unfoldable pub additions : InstalledState → List (Text × Bool) → List Text → List Text
unfolding is_addition
additions state requested removable =
    map (λ (formula : InstalledFormula). formula.name)
      (keep (is_addition state requested removable) state.formulae)

-- The loop, by rounds.
unfoldable pub fixpoint_loop :
    ℕ → InstalledState → List (Text × Bool) → List Text → Option (List Text)
unfolding additions
fixpoint_loop zero state requested removable = none
fixpoint_loop (suc fuel) state requested removable =
    let added = additions state requested removable in
    let later = fixpoint_loop fuel state requested (removable ++ added) in
    if is_empty added then some removable else later

-- One round more than there are formulae.
unfoldable pub fixpoint : InstalledState → List (Text × Bool) → Option (List Text)
unfolding fixpoint_loop
fixpoint state requested = fixpoint_loop (suc (length state.formulae)) state requested []
