-- ===== src/Dependency/Walk/Invariants.antt =====
-- The invariant of `Traversal`: what its stack, its set of complete names and its order hold.
use zapbrew.Base.{
  Text, false, List, [], ◌∷◌, ◌++◌, none, some, ◌≡◌, refl, Occurs, inl, inr, ◌⊎◌, Distinct,
  Distinct-snoc, Occurs-append_right, Occurs-append_cases,
}
use zapbrew.Catalog.{UsesFromMacos, Formula, Catalog, get}
use zapbrew.Dependency.{
  OpError, missing_formula, invalid_state, dependency_cycle, out_of_fuel, DependencyOptions, Edge,
}
use zapbrew.Dependency.Walk.{Traversal, contains, cycle_from, noted, entered, start}
use zapbrew.Dependency.Walk.Induction.{contains-fresh, Needs, Asks, Ready}
use zapbrew.Dependency.Walk.Bounds.{BadBound}
use zapbrew.Dependency.Walk.Chains.{Chain, IsCycle, Chain-snoc, cycle_from-fresh}

-- The names that the roots reach through selected edges.
pub data Reach (c : Catalog) (o : DependencyOptions) (roots : List Text) : Text → Type 0 where
  at_root : {x : Text} → Occurs x roots → Reach c o roots x
  step : {p m : Text} → Reach c o roots p → Needs c o roots p m → Reach c o roots m

module _ (c : Catalog) (o : DependencyOptions) (roots : List Text) where
  -- Behind the names `seen`, each name stands after all that it needs and that is no root.
  abbrev pub Sorted : List Text → List Text → Type 0
  Sorted seen [] = Unit
  Sorted seen (x ∷ xs) =
      ((m : Text) → Needs c o roots x m → Occurs m roots ⊎ Occurs m seen) × Sorted (x ∷ seen) xs

  pub Sorted-snoc :
      (seen xs : List Text) (x : Text)
      → Sorted seen xs
      → ((m : Text) → Needs c o roots x m → Occurs m roots ⊎ Occurs m seen ⊎ Occurs m xs)
      → Sorted seen (xs ++ x ∷ [])
  Sorted-snoc seen [] x h hx = (
    λ m e. elim (hx m e) [
      | inl r ↦ inl r
      | inr (inl s) ↦ inr s
      | inr (inr nowhere) ↦ absurd nowhere
    ],
    tt,
  )
  Sorted-snoc seen (y ∷ xs) x (hy, h) hx = (
    hy,
    Sorted-snoc (y ∷ seen) xs x h λ m e. elim (hx m e) [
      | inl r ↦ inl r
      | inr (inl s) ↦ inr (inl (inr s))
      | inr (inr (inl same)) ↦ inr (inl (inl same))
      | inr (inr (inr there)) ↦ inr (inr there)
    ],
  )

  pub record Walked (t : Traversal) : Type 0 where
    pub distinct : Distinct t.active
    pub apart : (x : Text) → Occurs x t.active → ¬ Occurs x t.complete
    pub known : (x : Text) → Occurs x t.active → (f : Formula) × (get c x ≡ some f) × (f.name ≡ x)
    pub chain : Chain c o roots t.active
    pub reached_active : (x : Text) → Occurs x t.active → Reach c o roots x
    pub reached : (x : Text) → Occurs x t.complete → Reach c o roots x
    pub closed : (x m : Text) → Occurs x t.complete → Needs c o roots x m → Occurs m t.complete
    pub listed : (x : Text) → Occurs x t.complete → Occurs x roots ⊎ Occurs x t.order
    pub order_complete : (x : Text) → Occurs x t.order → Occurs x t.complete × ¬ Occurs x roots
    pub once : Distinct t.order
    pub sorted : Sorted [] t.order

  -- A formula that the roots reach has a selected edge that spells the name, and there is no formula
  -- of it.
  abbrev pub Lacking : Text → Type 0
  Lacking name = (get c name ≡ none) × (p : Text) × Reach c o roots p × Asks c o roots p name

  -- A formula that the roots reach has a `uses_from_macos` that cannot be judged, for this reason.
  abbrev pub Unjudged : Text → Type 0
  Unjudged reason =
      (f : Formula) × (get c f.name ≡ some f)
      × Reach c o roots f.name
      × (d : UsesFromMacos) × Occurs d f.uses_from_macos
      × BadBound o.target d reason

  -- An error tells the truth.
  abbrev pub Truthful : OpError → Type 0
  Truthful (missing_formula name) = Lacking name
  Truthful (invalid_state reason) = Unjudged reason
  Truthful (dependency_cycle cycle) = IsCycle c o roots cycle
  Truthful out_of_fuel = ⊥

  pub start-Walked : Walked start
  start-Walked = record {
    distinct = tt;
    apart = λ x h. absurd h;
    known = λ x h. absurd h;
    chain = tt;
    reached_active = λ x h. absurd h;
    reached = λ x h. absurd h;
    closed = λ x m h. absurd h;
    listed = λ x h. absurd h;
    order_complete = λ x h. absurd h;
    once = tt;
    sorted = tt;
  }

  pub noted-Walked :
      (t : Traversal) (name : Text) (edge : Edge) → Walked t → Walked (noted name edge.tags t)
  noted-Walked t name edge w = record {
    distinct = w.distinct;
    apart = w.apart;
    known = w.known;
    chain = w.chain;
    reached_active = w.reached_active;
    reached = w.reached;
    closed = w.closed;
    listed = w.listed;
    order_complete = w.order_complete;
    once = w.once;
    sorted = w.sorted;
  }

  pub Ready-Reach :
      (t : Traversal) (name : Text) → Walked t → Ready c o roots t name → Reach c o roots name
  Ready-Reach t name w (inl (empty, root)) = at_root root
  Ready-Reach t name w (inr (before, p, top, needs, m, found)) =
      step (w.reached_active p (rw top (Occurs-append_right p before (p ∷ []) (inl refl)))) needs

  pub Ready-Chain :
      (t : Traversal) (name : Text)
      → Walked t
      → Ready c o roots t name
      → Chain c o roots (t.active ++ name ∷ [])
  Ready-Chain t name w (inl (empty, root)) = rw empty tt
  Ready-Chain t name w (inr (before, p, top, needs, m, found)) =
      rw top (Chain-snoc c o roots before p name (rw top at w.chain) needs)

  pub entered-Walked :
      (t : Traversal) (f : Formula)
      → Walked t
      → Ready c o roots t f.name
      → get c f.name ≡ some f
      → cycle_from f.name t.active ≡ none
      → contains t.complete f.name ≡ false
      → Walked (entered f.name t)
  entered-Walked t f w ready found fresh new = record {
    distinct = Distinct-snoc t.active f.name w.distinct (cycle_from-fresh f.name t.active fresh);
    apart = λ x h.
        either x (λ y. ¬ Occurs y t.complete) h w.apart (contains-fresh t.complete f.name new);
    known = λ x h.
        either x (λ y. (g : Formula) × (get c y ≡ some g) × (g.name ≡ y)) h w.known
          (f, found, refl);
    chain = Ready-Chain t f.name w ready;
    reached_active =
        λ x h. either x (Reach c o roots) h w.reached_active (Ready-Reach t f.name w ready);
    reached = w.reached;
    closed = w.closed;
    listed = w.listed;
    order_complete = w.order_complete;
    once = w.once;
    sorted = w.sorted;
  }
    where
      either :
          (x : Text) (Q : Text → Type 0)
          → Occurs x (t.active ++ f.name ∷ [])
          → ((y : Text) → Occurs y t.active → Q y)
          → Q f.name
          → Q x
      either x Q h old new = elim (Occurs-append_cases x t.active (f.name ∷ []) h) [
        | inl a ↦ old x a
        | inr (inl same) ↦ rw same new
        | inr (inr nowhere) ↦ absurd nowhere
      ]
