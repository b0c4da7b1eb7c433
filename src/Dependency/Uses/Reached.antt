-- ===== src/Dependency/Uses/Reached.antt =====
-- `collect_reachable` collects what a formula reaches over at least one edge.
use zapbrew.Base.{
  ℕ, suc, ◌+◌, ◌<◌, length, Text, Bool, true, false, List, [], ◌∷◌, some, ◌≡◌, refl, sym, Occurs,
  inl, inr, ◌⊎◌, Bool-cases, arith, Distinct, Result,
}
use zapbrew.Catalog.{Formula, get, index}
use zapbrew.Dependency.{
  OpError, missing_formula, invalid_state, dependency_cycle, out_of_fuel, DependencyOptions, every,
}
use zapbrew.Dependency.Uses.{UsesOptions, Marks, reach}
use zapbrew.Dependency.Walk.{contains}
use zapbrew.Dependency.Walk.Induction.{Good, contains→Occurs, contains-fresh, Needs}
use zapbrew.Dependency.Walk.Steps.{map-Good}
use zapbrew.Dependency.Walk.Invariants.{Reach, Lacking, Unjudged, step}
use zapbrew.Dependency.Walk.Expansion.{IsOwn}

-- The graph of a query.
abbrev pub graph_of : UsesOptions → DependencyOptions
graph_of options = record { target = options.host; mode = every; filter = options.filter }

module _ (fs : List Formula) (options : UsesOptions) (root : Text) where
  abbrev pub Step : Text → Text → Type 0
  Step p m = Needs (index fs) (graph_of options) (root ∷ []) p m

  -- The root reaches the name over at least one edge.
  abbrev pub Beyond : Text → Type 0
  Beyond x = (p : Text) × Reach (index fs) (graph_of options) (root ∷ []) p × Step p x

  -- How a query refuses: no formula of a needed name, or one that cannot be judged.
  abbrev pub Truth : OpError → Type 0
  Truth (missing_formula name) = Lacking (index fs) (graph_of options) (root ∷ []) name
  Truth (invalid_state reason) = Unjudged (index fs) (graph_of options) (root ∷ []) reason
  Truth (dependency_cycle cycle) = ⊥
  Truth out_of_fuel = ⊥

  pub record Marked (s : Marks) : Type 0 where
    pub distinct : Distinct s.visited
    pub known : (x : Text) → Occurs x s.visited → IsOwn (index fs) x
    pub inside : (x : Text) → Occurs x s.reached → Occurs x s.visited
    pub rooted : Occurs root s.visited
    pub sound : (x : Text) → Occurs x s.reached → Beyond x

  -- All that the name needs is reached.
  abbrev pub Closed : Text → Marks → Type 0
  Closed x s = (m : Text) → Step x m → Occurs m s.reached

  abbrev pub Grows : Marks → Marks → Type 0
  Grows s s' =
      ((x : Text) → Occurs x s.visited → Occurs x s'.visited)
      × ((x : Text) → Occurs x s.reached → Occurs x s'.reached)
      × ((x : Text) → Occurs x s'.visited → Occurs x s.visited ⊎ Closed x s')

  pub Grows-refl : (s : Marks) → Grows s s
  Grows-refl s = (λ x h. h, λ x h. h, λ x h. inl h)

  pub Grows-trans : (s t u : Marks) → Grows s t → Grows t u → Grows s u
  Grows-trans s t u (v, r, n) (v', r', n') = (
    λ x h. v' x (v x h),
    λ x h. r' x (r x h),
    λ x h. elim (n' x h) [
      | inr new ↦ inr new
      | inl old ↦ elim (n x old) [
        | inl before ↦ inl before
        | inr closed ↦ inr λ m e. r' m (closed m e)
      ]
    ],
  )

  abbrev pub Collects : ℕ → Bool → (Formula → Marks → Result OpError Marks) → Type 0
  Collects fuel flag collect =
      (d : Formula) (s : Marks)
      → get (index fs) d.name ≡ some d
      → contains (root ∷ []) d.name ≡ flag
      → Reach (index fs) (graph_of options) (root ∷ []) d.name
      → Marked s
      → length fs < fuel + length s.visited
      → Good (λ s'. Marked s' × Grows s s' × Closed d.name s') Truth (collect d s)

  not_root :
      (s : Marks) (name : Text)
      → Marked s
      → contains s.visited name ≡ false
      → contains (root ∷ []) name ≡ false
  not_root s name w fresh = elim (Bool-cases (contains (root ∷ []) name)) [
    | inr miss ↦ miss
    | inl hit ↦ elim (contains→Occurs (root ∷ []) name hit) [
      | inl same ↦ absurd (contains-fresh s.visited name fresh (rw same w.rooted))
      | inr nowhere ↦ absurd nowhere
    ]
  ]

  pub reach-Good :
      (fuel : ℕ) (collect : Formula → Marks → Result OpError Marks)
      → Collects fuel false collect
      → (d : Formula) (s : Marks) (b : Bool) → contains s.visited d.name ≡ b
      → get (index fs) d.name ≡ some d
      → Beyond d.name
      → Marked s
      → length fs < suc fuel + length s.visited
      → Good (λ s'. Marked s' × Grows s s' × Occurs d.name s'.reached) Truth (reach collect d s b)
  reach-Good fuel collect hc d s true e found beyond w enough = (
    record {
      distinct = w.distinct;
      known = w.known;
      inside = λ x h. elim h [
        | inl same ↦ rw same (contains→Occurs s.visited d.name e)
        | inr there ↦ w.inside x there
      ];
      rooted = w.rooted;
      sound = λ x h. elim h [ inl same ↦ rw same beyond | inr there ↦ w.sound x there ];
    },
    (λ x h. h, λ x h. inr h, λ x h. inl h),
    inl refl,
  )
  reach-Good fuel collect hc d s false e found beyond w enough =
      let (p, before, needs) = beyond in
      map-Good _ _ Truth (collect d s1)
        (λ s' (w', (v, r, n), closed). (
          w',
          (
            λ x h. v x (inr h),
            λ x h. r x (inr h),
            λ x h. elim (n x h) [
              | inl (inl same) ↦ inr (rw same closed)
              | inl (inr old) ↦ inl old
              | inr new ↦ inr new
            ],
          ),
          r d.name (inl refl),
        ))
        (hc d s1 found (not_root s d.name w e) (step before needs) marked (omega arith))
    where
      s1 : Marks
      s1 = record { visited = d.name ∷ s.visited; reached = d.name ∷ s.reached }

      marked : Marked s1
      marked = record {
        distinct = (contains-fresh s.visited d.name e, w.distinct);
        known =
            λ x h. elim h [ inl same ↦ (d, rw same found, sym same) | inr there ↦ w.known x there ];
        inside = λ x h. elim h [ inl same ↦ inl same | inr there ↦ inr (w.inside x there) ];
        rooted = inr w.rooted;
        sound = λ x h. elim h [ inl same ↦ rw same beyond | inr there ↦ w.sound x there ];
      }
