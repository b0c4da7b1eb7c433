-- ===== src/Dependency/Walk/Faults.antt =====
-- The errors of `edges`, and the induction over `visit` for the invariant of `Traversal`.
use zapbrew.Base.{
  ℕ, suc, ◌≤◌, length, Text, List, [], ◌∷◌, some, ◌≡◌, refl, ap, Occurs, Occurs-append_right, inl,
  inr, map, Distinct, Distinct-length, err,
}
use zapbrew.Catalog.{get, Formula, Catalog, index}
use zapbrew.Catalog.Agreement.{get-canonical}
use zapbrew.Dependency.{OpError, invalid_state, DependencyOptions, edges}
use zapbrew.Dependency.Walk.Induction.{Invariant}
use zapbrew.Dependency.Walk.Bounds.{edges-BadBound}
use zapbrew.Dependency.Walk.Chains.{cycle_from-IsCycle}
use zapbrew.Dependency.Walk.Leaving.{left-Walked}
use zapbrew.Dependency.Walk.Invariants.{
  Walked, Reach, Unjudged, Truthful, noted-Walked, Ready-Reach, Ready-Chain, entered-Walked,
}

module _ (c : Catalog) (o : DependencyOptions) (roots : List Text) where
  -- The edges of a reached formula fail only with a reason.
  pub edges-Unjudged :
      (f : Formula) (e : OpError)
      → get c f.name ≡ some f
      → Reach c o roots f.name
      → edges f o.target ≡ err e
      → (reason : Text) × (e ≡ invalid_state reason) × Unjudged c o roots reason
  edges-Unjudged f e own reach failed =
      let (d, among, (reason, same, bad)) = edges-BadBound f o.target e failed in
      (reason, same, (f, own, reach, d, among, bad))

Occurs-map :
    {A B : Type 0} (f : A → B) (x : A) (xs : List A) → Occurs x xs → Occurs (f x) (map f xs)
Occurs-map f x [] h = absurd h
Occurs-map f x (y ∷ xs) (inl same) = inl (ap f same)
Occurs-map f x (y ∷ xs) (inr h) = inr (Occurs-map f x xs h)

length-map : {A B : Type 0} (f : A → B) (xs : List A) → length (map f xs) ≡ length xs
length-map f [] = refl
length-map f (x ∷ xs) = ap (λ (n : ℕ). suc n) (length-map f xs)

-- Distinct names of formulae are not more than there are formulae.
pub names_room :
    (fs : List Formula) (names : List Text)
    → Distinct names
    → ((x : Text) → Occurs x names → (f : Formula) × (get (index fs) x ≡ some f) × (f.name ≡ x))
    → length names ≤ length fs
names_room fs names distinct known = rw (← length-map (λ (f : Formula). f.name) fs) (
    Distinct-length names (map (λ (f : Formula). f.name) fs) distinct λ x h.
      let (f, got, named) = known x h in
      let (again, among) = get-canonical fs x f got in
      rw (← named) (Occurs-map (λ (f : Formula). f.name) f fs among))

pub Walked-Invariant :
    (fs : List Formula) (o : DependencyOptions) (roots : List Text)
    → Invariant
        (index fs)
        o
        roots
        (Walked (index fs) o roots)
        (Truthful (index fs) o roots)
        (length fs)
Walked-Invariant fs o roots = record {
  room = λ t w. names_room fs t.active w.distinct w.known;
  lost = λ t f before name w top asks e. (
    e,
    f.name,
    w.reached_active f.name (rw top (Occurs-append_right f.name before (f.name ∷ []) (inl refl))),
    asks,
  );
  bad = λ t f e w ready own failed.
      let reach = Ready-Reach (index fs) o roots t f.name w ready in
      let (reason, same, unjudged) = edges-Unjudged (index fs) o roots f e own reach failed in
      rw same unjudged;
  circle = λ t name cycle w ready e.
      cycle_from-IsCycle (index fs) o roots name t.active cycle
        (Ready-Chain (index fs) o roots t name w ready) e;
  noting = noted-Walked (index fs) o roots;
  entering = entered-Walked (index fs) o roots;
  leaving = left-Walked (index fs) o roots;
}
