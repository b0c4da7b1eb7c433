-- ===== src/Dependency/Uses.antt =====
-- crates/zapbrew-ops/src/dependency.rs: `collect_reachable`, `formula_reaches_all` and `uses`.
pub mod Reached
pub mod Answer
pub mod Queries
mod Tests
use zapbrew.Base.{
  ℕ, zero, suc, Text, cmp_text, Bool, true, false, List, [], ◌∷◌, ◌++◌, Ordering, if◌then◌else◌,
  all, is_empty, Result, ok, err, ◌>>=◌,
}
use zapbrew.Types.BottleTag.{BottleTag}
use zapbrew.Catalog.{Formula, Catalog}
use zapbrew.Dependency.{
  OpError, out_of_fuel, EdgeFilter, includes, Edge, validate_host, formula, edges,
}
use zapbrew.Dependency.Walk.{contains, rounds}

pub record UsesOptions : Type 0 where
  pub host : BottleTag
  pub recursive : Bool
  pub filter : EdgeFilter

-- The two sets that `collect_reachable` fills.
pub record Marks : Type 0 where
  pub visited : List Text
  pub reached : List Text

-- The body of the loop behind the lookup: `reached` grows, and a fresh name is collected from.
abbrev pub reach :
    (Formula → Marks → Result OpError Marks) → Formula → Marks → Bool → Result OpError Marks
reach collect d s true = ok (record s { reached = d.name ∷ s.reached })
reach collect d s false =
    collect d (record { visited = d.name ∷ s.visited; reached = d.name ∷ s.reached })

module _ (catalog : Catalog) (options : UsesOptions) where
  unfoldable pub collect_edges :
      (Formula → Marks → Result OpError Marks) → Bool → List Edge → Marks → Result OpError Marks
  collect_edges collect root_edge [] s = ok s
  collect_edges collect root_edge (edge ∷ rest) s =
      let after = collect_edges collect root_edge rest in
      if includes options.filter edge.tags root_edge
      then (formula catalog edge.name >>= λ d.
          reach collect d s (contains s.visited d.name) >>= after)
      else after s

  unfoldable pub collect_reachable : ℕ → Bool → Formula → Marks → Result OpError Marks
  unfolding collect_edges
  collect_reachable zero root_edge current s = err out_of_fuel
  collect_reachable (suc fuel) root_edge current s = edges current options.host >>= λ found.
      collect_edges (collect_reachable fuel false) root_edge found s

  -- The names of the selected edges of a formula, for a query that is not recursive.
  unfoldable pub direct : List Edge → List Text → Result OpError (List Text)
  direct [] reached = ok reached
  direct (edge ∷ rest) reached =
      let after = direct rest in
      if includes options.filter edge.tags true
      then (formula catalog edge.name >>= λ d. after (d.name ∷ reached))
      else after reached

  abbrev pub reached_from : Formula → Bool → Result OpError (List Text)
  reached_from current true =
      collect_reachable (rounds catalog) true current
        (record { visited = current.name ∷ []; reached = [] })
      >>= λ s. ok s.reached
  reached_from current false = edges current options.host >>= λ found. direct found []

  unfoldable pub formula_reaches_all : Formula → List Text → Result OpError Bool
  unfolding collect_reachable direct
  formula_reaches_all current sought =
      reached_from current options.recursive >>= λ reached. ok (all (contains reached) sought)

  -- The loop over the catalog.
  unfoldable pub matching : List Text → List Formula → List Text → Result OpError (List Text)
  unfolding formula_reaches_all
  matching sought [] matches = ok matches
  matching sought (candidate ∷ rest) matches =
      let after = matching sought rest in
      if contains sought candidate.name
      then after matches
      else (formula_reaches_all candidate sought >>= λ reaches.
          after (if reaches then matches ++ candidate.name ∷ [] else matches))

-- The targets, each under its own name.
unfoldable pub sought_names : Catalog → List Text → List Text → Result OpError (List Text)
sought_names catalog [] sought = ok sought
sought_names catalog (target ∷ rest) sought =
    let after = sought_names catalog rest in formula catalog target >>= λ f. after (f.name ∷ sought)

-- `sort` on strings.
unfoldable pub insert_sorted : Text → List Text → List Text
insert_sorted x [] = x ∷ []
insert_sorted x (y ∷ ys) =
    let later = insert_sorted x ys in
    elim (cmp_text x y) [ Ordering.gt ↦ y ∷ later | _ ↦ x ∷ y ∷ ys ]

unfoldable pub sort : List Text → List Text
unfolding insert_sorted
sort [] = []
sort (x ∷ xs) = insert_sorted x (sort xs)

unfoldable pub uses : Catalog → List Text → UsesOptions → Result OpError (List Text)
unfolding sought_names matching sort
uses catalog targets options = validate_host options.host >>= λ _.
    sought_names catalog targets [] >>= λ sought.
    if is_empty sought
    then ok []
    else (matching catalog options sought catalog.formulae [] >>= λ matches. ok (sort matches))
