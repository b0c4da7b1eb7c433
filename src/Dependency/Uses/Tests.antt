-- ===== src/Dependency/Uses/Tests.antt =====
-- Queries on a small catalog.
use zapbrew.Base.{
  Text, bytes, text_eq, cmp_text, then_with, true, false, List, [], ◌∷◌, some, ok, err, ◌≡◌, refl,
  Occurs, ◌↔◌,
}
use zapbrew.Types.Arch.{x86_64}
use zapbrew.Types.BottleTag.{linux}
use zapbrew.Catalog.{
  Formula, Dependency, build, index, lookup, get, position_of, index_from, insert_all,
}
use zapbrew.Dependency.{
  missing_formula, query, includes, formula, edges, validate_host, include_uses_from_macos,
}
use zapbrew.Dependency.Uses.{
  UsesOptions, collect_edges, collect_reachable, formula_reaches_all, matching, sought_names,
  insert_sorted, sort, uses,
}
use zapbrew.Dependency.Uses.Reached.{Truth, Beyond}
use zapbrew.Dependency.Uses.Queries.{formula_reaches_all-Beyond, formula_reaches_all-refuses}

abbrev formula_of : Text → List Dependency → Formula
formula_of name dependencies = record {
  name = name;
  oldnames = [];
  aliases = [];
  dependencies = dependencies;
  uses_from_macos = [];
}

abbrev on : Text → Dependency
on name = record { name = name; tags = [] }

abbrev wget : Formula
wget = formula_of (bytes "w") (on (bytes "s") ∷ [])

abbrev lost : Formula
lost = formula_of (bytes "l") (on (bytes "x") ∷ [])

-- `w` needs `s`, which needs `z`; `b` needs `z` for its build.
abbrev small : List Formula
small =
    wget
    ∷ formula_of (bytes "s") (on (bytes "z") ∷ [])
    ∷ formula_of (bytes "b") (record { name = bytes "z"; tags = build ∷ [] } ∷ [])
    ∷ formula_of (bytes "z") []
    ∷ []

abbrev recursive_query : UsesOptions
recursive_query = record {
  host = linux x86_64;
  recursive = true;
  filter = query false false false false;
}

users : uses (index small) (bytes "z" ∷ []) recursive_query ≡ ok (bytes "s" ∷ bytes "w" ∷ [])
unfolding uses sought_names matching sort insert_sorted formula_reaches_all collect_reachable
    collect_edges validate_host formula get lookup position_of index index_from insert_all edges
    include_uses_from_macos includes text_eq cmp_text then_with
users = refl

wget_reaches : formula_reaches_all (index small) recursive_query wget (bytes "z" ∷ []) ≡ ok true
unfolding formula_reaches_all collect_reachable collect_edges formula get lookup position_of index
    index_from insert_all edges include_uses_from_macos includes text_eq
wget_reaches = refl

wget_own : get (index small) (bytes "w") ≡ some wget
unfolding get lookup position_of index index_from insert_all text_eq
wget_own = refl

formula_reaches_all-Beyond_example :
    (true ≡ true)
    ↔ ((x : Text) → Occurs x (bytes "z" ∷ []) → Beyond small recursive_query (bytes "w") x)
formula_reaches_all-Beyond_example =
    formula_reaches_all-Beyond small recursive_query wget (bytes "z" ∷ []) true wget_own refl
      wget_reaches

lost_refused :
    formula_reaches_all (index (lost ∷ [])) recursive_query lost (bytes "z" ∷ [])
    ≡ err (missing_formula (bytes "x"))
unfolding formula_reaches_all collect_reachable collect_edges formula get lookup position_of index
    index_from insert_all edges include_uses_from_macos includes text_eq
lost_refused = refl

lost_own : get (index (lost ∷ [])) (bytes "l") ≡ some lost
unfolding get lookup position_of index index_from insert_all text_eq
lost_own = refl

formula_reaches_all-refuses_example :
    Truth (lost ∷ []) recursive_query (bytes "l") (missing_formula (bytes "x"))
formula_reaches_all-refuses_example =
    formula_reaches_all-refuses (lost ∷ []) recursive_query lost (bytes "z" ∷ [])
      (missing_formula (bytes "x")) lost_own refl lost_refused
