-- ===== src/Dependency/Walk.antt =====
-- crates/zapbrew-ops/src/dependency.rs: `Traversal::visit` and `expand`.
pub mod Induction
pub mod Steps
pub mod Visited
pub mod Bounds
pub mod Chains
pub mod Invariants
pub mod Leaving
pub mod Faults
pub mod Expansion
pub mod Outcome
pub mod Complete
use zapbrew.Base.{
  ℕ, zero, suc, ◌+◌, Text, text_eq, Bool, true, false, ◌&&◌, ◌||◌, not, List, [], ◌∷◌, ◌++◌, Option,
  none, some, if◌then◌else◌, any, keep, length, Result, ok, err, ◌>>=◌,
}
use zapbrew.Catalog.{Formula, Catalog, DependencyTag, lookup, insert}
use zapbrew.Dependency.{
  OpError, dependency_cycle, out_of_fuel, DependencyMode, every, pour, EdgeFilter, includes,
  DependencyOptions, Necessity, MergedTags, from_tags, merge, Edge, validate_host, formula, edges,
}

pub record Traversal : Type 0 where
  pub active : List Text
  pub complete : List Text
  pub order : List Text
  pub merged : List (Text × MergedTags)

-- `HashSet::contains`
abbrev pub contains : List Text → Text → Bool
contains set name = any (λ held. text_eq held name) set

-- `position` of the name, with the slice from there.
unfoldable pub cycle_from : Text → List Text → Option (List Text)
cycle_from name [] = none
cycle_from name (a ∷ active) =
    let rest = cycle_from name active in if text_eq a name then some (a ∷ active) else rest

-- `Vec::pop`
unfoldable pub pop : List Text → List Text
pop [] = []
pop (a ∷ []) = []
pop (a ∷ b ∷ active) = a ∷ pop (b ∷ active)

-- `entry`, `and_modify`, `or_insert`
abbrev pub merged_with : Option MergedTags → MergedTags → MergedTags
merged_with none occurrence = occurrence
merged_with (some merged) occurrence = merge merged occurrence

unfoldable pub note :
    Text → List DependencyTag → List (Text × MergedTags) → List (Text × MergedTags)
unfolding lookup
note name tags merged = insert name (merged_with (lookup name merged) (from_tags tags)) merged

abbrev pub noted : Text → List DependencyTag → Traversal → Traversal
noted name tags t = record t { merged = note name tags t.merged }

abbrev pub entered : Text → Traversal → Traversal
entered name t = record t { active = t.active ++ name ∷ [] }

abbrev pub left : Bool → Text → Traversal → Traversal
left root_edge name t = record t {
  active = pop t.active;
  complete = name ∷ t.complete;
  order = (if root_edge then t.order else t.order ++ name ∷ []);
}

module _ (catalog : Catalog) (options : DependencyOptions) (roots : List Text) where
  -- The loop over the edges; `visit` is the recursive call.
  unfoldable pub visit_edges :
      (Text → Traversal → Result OpError Traversal)
      → Bool
      → List Edge
      → Traversal
      → Result OpError Traversal
  visit_edges visit root_edge [] t = ok t
  visit_edges visit root_edge (edge ∷ rest) t =
      let after = visit_edges visit root_edge rest in
      if includes options.filter edge.tags root_edge
      then (formula catalog edge.name >>= λ dependency.
          visit dependency.name (noted dependency.name edge.tags t) >>= after)
      else after t

  -- The body behind the two early returns.
  unfoldable pub visit_current :
      (Text → Traversal → Result OpError Traversal) → Formula → Traversal → Result OpError Traversal
  unfolding visit_edges
  visit_current visit current t =
      let root_edge = contains roots current.name in
      edges current options.target >>= λ found.
      visit_edges visit root_edge found (entered current.name t) >>= λ t'.
      ok (left root_edge current.name t')

  abbrev pub visit_from :
      (Text → Traversal → Result OpError Traversal)
      → Text
      → Traversal
      → Option (List Text)
      → Bool
      → Result OpError Traversal
  visit_from visit name t (some cycle) done = err (dependency_cycle (cycle ++ name ∷ []))
  visit_from visit name t none true = ok t
  visit_from visit name t none false =
      formula catalog name >>= λ current. visit_current visit current t

  unfoldable pub visit : ℕ → Text → Traversal → Result OpError Traversal
  unfolding visit_current cycle_from
  visit zero name t = err out_of_fuel
  visit (suc fuel) name t =
      visit_from (visit fuel) name t (cycle_from name t.active) (contains t.complete name)

  unfoldable pub visit_all : ℕ → List Text → Traversal → Result OpError Traversal
  unfolding visit
  visit_all fuel [] t = ok t
  visit_all fuel (root ∷ rest) t = visit fuel root t >>= visit_all fuel rest

abbrev pub start : Traversal
start = record { active = []; complete = []; order = []; merged = [] }

pub record ExpandedDependency : Type 0 where
  pub name : Text
  pub necessity : Necessity
  pub build : Bool
  pub test : Bool

-- The names of the roots, each once, in their first order.
unfoldable pub root_names : Catalog → List Text → List Text → Result OpError (List Text)
root_names catalog [] names = ok names
root_names catalog (root ∷ rest) names =
    let more = root_names catalog rest in
    formula catalog root >>= λ f.
    if contains names f.name then more names else more (names ++ f.name ∷ [])

abbrev pub is_skipped : DependencyOptions → MergedTags → Bool
is_skipped options d = elim options.mode [
  | every ↦ false
  | pour ↦
      (d.build && not options.filter.include_build) || (d.test && not options.filter.include_test)
]

-- `HashMap::remove`
abbrev pub remove : Text → List (Text × MergedTags) → List (Text × MergedTags)
remove name merged = keep (λ held. not (text_eq held.0 name)) merged

abbrev pub expanded_one :
    DependencyOptions → Text → Option MergedTags → List ExpandedDependency → List ExpandedDependency
expanded_one options name none rest = rest
expanded_one options name (some d) rest =
    if is_skipped options d
    then rest
    else record { name = name; necessity = d.necessity; build = d.build; test = d.test } ∷ rest

unfoldable pub expanded :
    DependencyOptions → List (Text × MergedTags) → List Text → List ExpandedDependency
unfolding lookup
expanded options merged [] = []
expanded options merged (name ∷ order) =
    expanded_one options name (lookup name merged) (expanded options (remove name merged) order)

-- The rounds of `visit`: the nesting is at most one for each formula, and one for the return.
abbrev pub rounds : Catalog → ℕ
rounds catalog = suc (suc (length catalog.formulae))

unfoldable pub expand :
    Catalog → List Text → DependencyOptions → Result OpError (List ExpandedDependency)
unfolding root_names visit_all expanded
expand catalog roots options = validate_host options.target >>= λ _.
    root_names catalog roots [] >>= λ names.
    visit_all catalog options names (rounds catalog) names start >>= λ t.
    ok (expanded options t.merged t.order)
