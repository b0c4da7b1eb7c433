-- ===== src/Dependency/Walk/Expansion.antt =====
-- What `expand` returns on an indexed catalog, and how it refuses.
use zapbrew.Base.{
  Text, List, [], ◌∷◌, ◌++◌, Option, none, some, ◌≡◌, refl, Occurs, inl, inr, ◌⊎◌, Bool-cases, map,
  Distinct, Occurs-append_cases, Result, ok, err,
}
use zapbrew.Catalog.{Formula, Catalog, lookup, get, index}
use zapbrew.Catalog.Agreement.{get-canonical}
use zapbrew.Dependency.{OpError, missing_formula, DependencyOptions, MergedTags, formula}
use zapbrew.Dependency.Walk.{
  contains, root_names, expanded, expanded_one, remove, ExpandedDependency, is_skipped,
}
use zapbrew.Dependency.Walk.Induction.{Good, either-Good, lift-Good, bind-Good, Needs}
use zapbrew.Dependency.Walk.Steps.{formula-Good}
use zapbrew.Dependency.Walk.Invariants.{Sorted}

pub traced-Good :
    {A : Type 0} (Q : A → Type 0) (E : OpError → Type 0) (m : Result OpError A)
    → Good Q E m
    → Good (λ a. Q a × (m ≡ ok a)) E m
traced-Good Q E (ok a) h = (h, refl)
traced-Good Q E (err e) h = h

-- A name of a formula, the one under which `get` finds it.
abbrev pub IsOwn : Catalog → Text → Type 0
IsOwn c x = (f : Formula) × (get c x ≡ some f) × (f.name ≡ x)

-- A requested name is in no formula of the catalog.
abbrev pub IsLost : Catalog → List Text → OpError → Type 0
IsLost c requests e =
    (name : Text) × Occurs name requests × (e ≡ missing_formula name) × (get c name ≡ none)

pub root_names-Good :
    (fs : List Formula) (requests names : List Text)
    → ((x : Text) → Occurs x names → IsOwn (index fs) x)
    → Good
        (λ ns. (x : Text) → Occurs x ns → IsOwn (index fs) x)
        (IsLost (index fs) requests)
        (root_names (index fs) requests names)
unfolding root_names
root_names-Good fs [] names h = h
root_names-Good fs (r ∷ rs) names h =
    bind-Good (λ f. get (index fs) r ≡ some f) _ _ (formula (index fs) r) _
      (formula-Good (index fs) r (IsLost (index fs) (r ∷ rs)) (λ e. (r, inl refl, refl, e)))
      λ f got.
        either-Good Own (IsLost (index fs) (r ∷ rs)) (contains names f.name) _ _
          (later names (root_names-Good fs rs names h))
          (later (names ++ f.name ∷ []) (root_names-Good fs rs (names ++ f.name ∷ []) (more f got)))
  where
    Own : List Text → Type 0
    Own ns = (x : Text) → Occurs x ns → IsOwn (index fs) x

    later :
        (ns : List Text)
        → Good Own (IsLost (index fs) rs) (root_names (index fs) rs ns)
        → Good Own (IsLost (index fs) (r ∷ rs)) (root_names (index fs) rs ns)
    later ns g =
        lift-Good Own (IsLost (index fs) rs) (IsLost (index fs) (r ∷ rs))
          (root_names (index fs) rs ns)
          (λ e (name, among, same, none_there). (name, inr among, same, none_there)) g

    more : (f : Formula) → get (index fs) r ≡ some f → Own (names ++ f.name ∷ [])
    more f got x occurs = elim (Occurs-append_cases x names (f.name ∷ []) occurs) [
      | inl a ↦ h x a
      | inr (inl same) ↦ rw same (f, (get-canonical fs r f got).0, refl)
      | inr (inr nowhere) ↦ absurd nowhere
    ]

module _ (c : Catalog) (o : DependencyOptions) (roots : List Text) where
  -- No name needs one behind it.
  abbrev pub InOrder : List Text → Type 0
  InOrder [] = Unit
  InOrder (x ∷ xs) = ((m : Text) → Needs c o roots x m → ¬ Occurs m xs) × InOrder xs

  pub Sorted-InOrder :
      (seen xs : List Text)
      → Sorted c o roots seen xs
      → Distinct xs
      → ((x : Text) → Occurs x xs → ¬ Occurs x roots)
      → ((x : Text) → Occurs x xs → ¬ Occurs x seen)
      → InOrder xs
  Sorted-InOrder seen [] h d nr ns = tt
  Sorted-InOrder seen (x ∷ xs) (hx, h) (nx, d) nr ns = (
    λ m needs later. elim (hx m needs) [ inl r ↦ nr m (inr later) r | inr s ↦ ns m (inr later) s ],
    Sorted-InOrder (x ∷ seen) xs h d (λ y a. nr y (inr a))
        λ y a b. elim b [ inl same ↦ nx (rw same at a) | inr s ↦ ns y (inr a) s ],
  )

abbrev pub names_of : List ExpandedDependency → List Text
names_of ds = map (λ (d : ExpandedDependency). d.name) ds

module _ (o : DependencyOptions) where
  expanded_one-Occurs :
      (x name : Text) (m : Option MergedTags) (rest : List ExpandedDependency)
      → Occurs x (names_of (expanded_one o name m rest))
      → (x ≡ name) ⊎ Occurs x (names_of rest)
  expanded_one-Occurs x name none rest h = inr h
  expanded_one-Occurs x name (some d) rest h = elim (Bool-cases (is_skipped o d)) [
    | inl skipped ↦ inr (rw skipped at h)
    | inr kept ↦ rw kept at h
  ]

  pub expanded-Occurs :
      (x : Text) (m : List (Text × MergedTags)) (order : List Text)
      → Occurs x (names_of (expanded o m order))
      → Occurs x order
  unfolding expanded
  expanded-Occurs x m [] h = h
  expanded-Occurs x m (name ∷ order) h =
      elim (expanded_one-Occurs x name (lookup name m) (expanded o (remove name m) order) h) [
        | inl same ↦ inl same
        | inr there ↦ inr (expanded-Occurs x (remove name m) order there)
      ]

  pub expanded-Distinct :
      (m : List (Text × MergedTags)) (order : List Text)
      → Distinct order
      → Distinct (names_of (expanded o m order))
  unfolding expanded
  expanded-Distinct m [] d = tt
  expanded-Distinct m (name ∷ order) (n, d) =
      one (lookup name m) (expanded o (remove name m) order)
        (λ h. n (expanded-Occurs name (remove name m) order h))
        (expanded-Distinct (remove name m) order d)
    where
      one :
          (e : Option MergedTags) (rest : List ExpandedDependency)
          → ¬ Occurs name (names_of rest)
          → Distinct (names_of rest)
          → Distinct (names_of (expanded_one o name e rest))
      one none rest n d = d
      one (some e) rest n d = elim (Bool-cases (is_skipped o e)) [
        | inl skipped ↦ rw skipped d
        | inr kept ↦ rw kept (n, d)
      ]

  pub expanded-InOrder :
      (c : Catalog) (roots : List Text) (m : List (Text × MergedTags)) (order : List Text)
      → InOrder c o roots order
      → InOrder c o roots (names_of (expanded o m order))
  unfolding expanded
  expanded-InOrder c roots m [] d = tt
  expanded-InOrder c roots m (name ∷ order) (n, d) =
      one (lookup name m) (expanded o (remove name m) order)
        (λ x needs h. n x needs (expanded-Occurs x (remove name m) order h))
        (expanded-InOrder c roots (remove name m) order d)
    where
      one :
          (e : Option MergedTags) (rest : List ExpandedDependency)
          → ((x : Text) → Needs c o roots name x → ¬ Occurs x (names_of rest))
          → InOrder c o roots (names_of rest)
          → InOrder c o roots (names_of (expanded_one o name e rest))
      one none rest n d = d
      one (some e) rest n d = elim (Bool-cases (is_skipped o e)) [
        | inl skipped ↦ rw skipped d
        | inr kept ↦ rw kept (n, d)
      ]
