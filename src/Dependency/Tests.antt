-- ===== src/Dependency/Tests.antt =====
-- Runs of `expand` on small catalogs, and applications of its theorems to them.
use zapbrew.Base.{
  Text, bytes, text_eq, false, List, [], ◌∷◌, ok, err, ◌≡◌, refl, Occurs, inl, ◌⊎◌, Distinct,
}
use zapbrew.Types.Arch.{x86_64}
use zapbrew.Types.BottleTag.{linux}
use zapbrew.Catalog.{Formula, Dependency, index, lookup, get, position_of, index_from, insert_all}
use zapbrew.Dependency.{
  OpError, dependency_cycle, DependencyOptions, MergedTags, every, all_edges, is_required, includes,
  formula, edges, validate_host, include_uses_from_macos,
}
use zapbrew.Dependency.Walk.{
  Traversal, start, visit_all, visit, visit_current, visit_edges, rounds, root_names, expand,
  expanded, ExpandedDependency, cycle_from, pop, note,
}
use zapbrew.Dependency.Walk.Expansion.{names_of, InOrder}
use zapbrew.Dependency.Walk.Invariants.{Reach, at_root}
use zapbrew.Dependency.Walk.Complete.{expand_complete}
use zapbrew.Dependency.Walk.Outcome.{
  Refused, expand-refuses, expand-InOrder, expand-Reach, visit_all-Reach,
}

abbrev formula_of : Text → List Text → Formula
formula_of name needs = record {
  name = name;
  oldnames = [];
  aliases = [];
  dependencies = of needs;
  uses_from_macos = [];
}
  where
    of : List Text → List Dependency
    of [] = []
    of (n ∷ ns) = record { name = n; tags = [] } ∷ of ns

abbrev on_linux : DependencyOptions
on_linux = record { target = linux x86_64; mode = every; filter = all_edges }

-- `a` needs `b` and `c`, and `b` needs `c`.
abbrev three : List Formula
three =
    formula_of (bytes "a") (bytes "b" ∷ bytes "c" ∷ [])
    ∷ formula_of (bytes "b") (bytes "c" ∷ [])
    ∷ formula_of (bytes "c") []
    ∷ []

abbrev needed : Text → ExpandedDependency
needed name = record { name = name; necessity = is_required; build = false; test = false }

abbrev two_needed : List ExpandedDependency
two_needed = needed (bytes "c") ∷ needed (bytes "b") ∷ []

three_expanded : expand (index three) (bytes "a" ∷ []) on_linux ≡ ok two_needed
unfolding expand validate_host root_names visit_all visit visit_current visit_edges cycle_from pop
    note expanded formula get lookup position_of index index_from insert_all edges
    include_uses_from_macos includes text_eq
three_expanded = refl

-- `p` and `q` need each other.
abbrev circular : List Formula
circular = formula_of (bytes "p") (bytes "q" ∷ []) ∷ formula_of (bytes "q") (bytes "p" ∷ []) ∷ []

abbrev circle : OpError
circle = dependency_cycle (bytes "p" ∷ bytes "q" ∷ bytes "p" ∷ [])

circular_refused : expand (index circular) (bytes "p" ∷ []) on_linux ≡ err circle
unfolding expand validate_host root_names visit_all visit visit_current visit_edges cycle_from pop
    note expanded formula get lookup position_of index index_from insert_all edges
    include_uses_from_macos includes text_eq
circular_refused = refl

expand-refuses_example : Refused circular on_linux (bytes "p" ∷ []) circle
expand-refuses_example = expand-refuses circular on_linux (bytes "p" ∷ []) circle circular_refused

expand-InOrder_example :
    (names : List Text) × (root_names (index three) (bytes "a" ∷ []) [] ≡ ok names)
    × Distinct (names_of two_needed)
    × InOrder (index three) on_linux names (names_of two_needed)
expand-InOrder_example = expand-InOrder three on_linux (bytes "a" ∷ []) two_needed three_expanded

expand-Reach_example :
    (names : List Text) × (root_names (index three) (bytes "a" ∷ []) [] ≡ ok names)
    × ((x : Text)
        → Occurs x (names_of two_needed)
        → Reach (index three) on_linux names x × ¬ Occurs x names)
expand-Reach_example = expand-Reach three on_linux (bytes "a" ∷ []) two_needed three_expanded

abbrev required : MergedTags
required = record { necessity = is_required; build = false; test = false }

abbrev last : Traversal
last = record {
  active = [];
  complete = bytes "a" ∷ bytes "b" ∷ bytes "c" ∷ [];
  order = bytes "c" ∷ bytes "b" ∷ [];
  merged = (bytes "c", required) ∷ (bytes "c", required) ∷ (bytes "b", required) ∷ [];
}

three_rooted : root_names (index three) (bytes "a" ∷ []) [] ≡ ok (bytes "a" ∷ [])
unfolding root_names formula get lookup position_of index index_from insert_all text_eq
three_rooted = refl

three_walked :
    visit_all (index three) on_linux (bytes "a" ∷ []) (rounds (index three)) (bytes "a" ∷ []) start
    ≡ ok last
unfolding visit_all visit visit_current visit_edges cycle_from pop note formula get lookup
    position_of index index_from insert_all edges include_uses_from_macos includes text_eq
three_walked = refl

visit_all-Reach_example : Occurs (bytes "a") (bytes "a" ∷ []) ⊎ Occurs (bytes "a") last.order
visit_all-Reach_example =
    visit_all-Reach three on_linux (bytes "a" ∷ []) (bytes "a" ∷ []) last three_rooted three_walked
      (bytes "a") (at_root (inl refl))

expand_complete_example :
    (names : List Text) × (root_names (index three) (bytes "a" ∷ []) [] ≡ ok names)
    × ((x : Text)
        → Reach (index three) on_linux names x
        → Occurs x names ⊎ Occurs x (names_of two_needed))
expand_complete_example =
    expand_complete three on_linux (bytes "a" ∷ []) two_needed refl three_expanded
