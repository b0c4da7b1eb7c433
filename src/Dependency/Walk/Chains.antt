-- ===== src/Dependency/Walk/Chains.antt =====
-- Paths in the dependency graph, and what `Traversal::visit` cuts out of the stack for a cycle.
use zapbrew.Base.{
  Text, text_eq, text_eq→eq, text_eq_refl, true, List, [], ◌∷◌, ◌++◌, none, some, ◌≡◌, refl, Occurs,
  inl, inr, Bool-cases, arith,
}
use zapbrew.Catalog.{Catalog}
use zapbrew.Dependency.{DependencyOptions}
use zapbrew.Dependency.Walk.{cycle_from}
use zapbrew.Dependency.Walk.Induction.{Needs}

module _ (c : Catalog) (o : DependencyOptions) (roots : List Text) where
  -- Each of the names has an edge to the next.
  abbrev pub Chain : List Text → Type 0
  Chain [] = Unit
  Chain (x ∷ []) = Unit
  Chain (x ∷ y ∷ xs) = Needs c o roots x y × Chain (y ∷ xs)

  -- A chain of two names at least that begins and ends with the same one.
  abbrev pub IsCycle : List Text → Type 0
  IsCycle cycle = Chain cycle × (x : Text) × (between : List Text) × (cycle ≡ x ∷ between ++ x ∷ [])

  pub Chain-snoc :
      (xs : List Text) (p m : Text)
      → Chain (xs ++ p ∷ [])
      → Needs c o roots p m
      → Chain ((xs ++ p ∷ []) ++ m ∷ [])
  Chain-snoc [] p m h e = (e, tt)
  Chain-snoc (x ∷ []) p m (h, hs) e = (h, (e, tt))
  Chain-snoc (x ∷ y ∷ xs) p m (h, hs) e = (h, Chain-snoc (y ∷ xs) p m hs e)

  pub Chain-init : (xs : List Text) (p : Text) → Chain (xs ++ p ∷ []) → Chain xs
  Chain-init [] p h = tt
  Chain-init (x ∷ []) p h = tt
  Chain-init (x ∷ y ∷ xs) p (h, hs) = (h, Chain-init (y ∷ xs) p hs)

  Chain-tail : (x : Text) (xs : List Text) → Chain (x ∷ xs) → Chain xs
  Chain-tail x [] h = tt
  Chain-tail x (y ∷ xs) (h, hs) = hs

  Chain-suffix : (xs ys : List Text) → Chain (xs ++ ys) → Chain ys
  Chain-suffix [] ys h = h
  Chain-suffix (x ∷ xs) ys h = Chain-suffix xs ys (Chain-tail x (xs ++ ys) h)

  -- What `cycle_from` cuts out of a chain, closed by the name, is a cycle.
  pub cycle_from-IsCycle :
      (name : Text) (active cycle : List Text)
      → Chain (active ++ name ∷ [])
      → cycle_from name active ≡ some cycle
      → IsCycle (cycle ++ name ∷ [])
  unfolding cycle_from
  cycle_from-IsCycle name [] cycle h e = ground arith
  cycle_from-IsCycle name (a ∷ active) cycle h e = elim (Bool-cases (text_eq a name)) [
    | inr other ↦
        cycle_from-IsCycle name active cycle (Chain-tail a (active ++ name ∷ []) h) (rw other at e)
    | inl same ↦
        let cut : some (a ∷ active) ≡ some cycle = rw same at e in
        let whole : cycle ≡ a ∷ active = ground arith in
        let start : a ≡ name = text_eq→eq a name same in rw whole (h, name, active, rw start refl)
  ]

pub cycle_from-fresh :
    (name : Text) (active : List Text) → cycle_from name active ≡ none → ¬ Occurs name active
unfolding cycle_from
cycle_from-fresh name [] e h = h
cycle_from-fresh name (a ∷ active) e (inl same) =
    let hit : text_eq a name ≡ true = rw same (text_eq_refl a) in ground arith
cycle_from-fresh name (a ∷ active) e (inr h) = elim (Bool-cases (text_eq a name)) [
  | inl hit ↦ ground arith
  | inr miss ↦ cycle_from-fresh name active (rw miss at e) h
]
