-- ===== src/Dependency.antt =====
-- crates/zapbrew-ops/src/dependency.rs: the edges of the dependency graph, the depth-first
-- traversal and `expand`. A `HashSet` is a list of its elements; a `HashMap` is a list of entries.
pub mod Uses
pub mod Walk
mod Tests
use zapbrew.Base.{
  ℕ, zero, suc, ◌+◌, Text, bytes, text_eq, Bool, true, false, ◌&&◌, ◌||◌, not, List, [], ◌∷◌, ◌++◌,
  Option, none, some, if◌then◌else◌, any, length, ltb, Result, ok, err, ◌>>=◌,
}
use zapbrew.Types.Arch.{Arch}
use zapbrew.Types.Error.{TypeError}
use zapbrew.Types.MacOsVersion
use zapbrew.Types.MacOsVersion.{MacOsVersion, discriminant}
use zapbrew.Types.BottleTag
use zapbrew.Types.BottleTag.{BottleTag, linux, mac_os}
use zapbrew.Catalog.{
  DependencyTag, build, test, recommended, optional, Dependency, UsesFromMacos, Formula, Catalog,
  lookup, insert, get,
}

-- error.rs: the errors that this module makes. `out_of_fuel` is the model's own, for a traversal
-- that is given too few rounds.
pub data OpError : Type 0 where
  missing_formula : (name : Text) → OpError
  invalid_state : (reason : Text) → OpError
  dependency_cycle : (cycle : List Text) → OpError
  out_of_fuel : OpError

pub data DependencyMode : Type 0 where
  every pour : DependencyMode

pub record EdgeFilter : Type 0 where
  pub include_build : Bool
  pub include_test : Bool
  pub include_optional : Bool
  pub skip_recommended : Bool
  pub root_only_test : Bool

abbrev pub all_edges : EdgeFilter
all_edges = record {
  include_build = true;
  include_test = true;
  include_optional = true;
  skip_recommended = false;
  root_only_test = false;
}

abbrev pub query : Bool → Bool → Bool → Bool → EdgeFilter
query include_build include_test include_optional skip_recommended = record {
  include_build = include_build;
  include_test = include_test;
  include_optional = include_optional;
  skip_recommended = skip_recommended;
  root_only_test = true;
}

-- The derived `PartialEq` of `DependencyTag`.
abbrev tag_is : DependencyTag → DependencyTag → Bool
tag_is build build = true
tag_is test test = true
tag_is recommended recommended = true
tag_is optional optional = true
tag_is _ _ = false

abbrev pub has_tag : DependencyTag → List DependencyTag → Bool
has_tag tag tags = any (tag_is tag) tags

unfoldable pub includes : EdgeFilter → List DependencyTag → Bool → Bool
includes filter tags root_edge =
    let is_recommended = has_tag recommended tags in
    let is_build = has_tag build tags in
    let is_test = has_tag test tags in
    let is_optional = has_tag optional tags in
    let required = not is_recommended && not is_build && not is_test && not is_optional in
    if filter.skip_recommended && is_recommended
    then false
    else required
      || is_recommended
      || (is_build && filter.include_build)
      || (is_test && filter.include_test && (not filter.root_only_test || root_edge))
      || (is_optional && filter.include_optional)

pub record DependencyOptions : Type 0 where
  pub target : BottleTag
  pub mode : DependencyMode
  pub filter : EdgeFilter

pub data Necessity : Type 0 where
  is_optional is_recommended is_required : Necessity

-- `Ord::max` of the derived order.
abbrev max_necessity : Necessity → Necessity → Necessity
max_necessity is_required _ = is_required
max_necessity is_recommended is_required = is_required
max_necessity is_recommended _ = is_recommended
max_necessity is_optional n = n

abbrev pub necessity : List DependencyTag → Necessity
necessity tags =
    if has_tag recommended tags
    then is_recommended
    else if has_tag optional tags
    then is_optional
    else is_required

pub record MergedTags : Type 0 where
  pub necessity : Necessity
  pub build : Bool
  pub test : Bool

abbrev pub from_tags : List DependencyTag → MergedTags
from_tags tags = record {
  necessity = necessity tags;
  build = has_tag build tags;
  test = has_tag test tags;
}

abbrev pub merge : MergedTags → MergedTags → MergedTags
merge self other = record {
  necessity = max_necessity self.necessity other.necessity;
  build = self.build && other.build;
  test = self.test || other.test;
}

pub record Edge : Type 0 where
  pub name : Text
  pub tags : List DependencyTag

abbrev pub universal_not_host : OpError
universal_not_host = invalid_state (bytes "the universal bottle tag is not a host platform")

unfoldable pub validate_host : BottleTag → Result OpError Bool
validate_host BottleTag.all = err universal_not_host
validate_host (linux arch) = ok true
validate_host (mac_os arch version) = ok true

abbrev formula_from : Text → Option Formula → Result OpError Formula
formula_from requested none = err (missing_formula requested)
formula_from requested (some f) = ok f

unfoldable pub formula : Catalog → Text → Result OpError Formula
formula catalog requested = formula_from requested (get catalog requested)

abbrev pub bound_from :
    UsesFromMacos → MacOsVersion → Text → Result TypeError MacOsVersion → Result OpError Bool
bound_from dependency version since (err e) = err (
    invalid_state (
      bytes "uses_from_macos dependency "
      ++ dependency.name
      ++ bytes " has unknown since bound "
      ++ since))
bound_from dependency version since (ok bound) =
    ok (ltb (discriminant version) (discriminant bound))

abbrev pub since_bound : UsesFromMacos → MacOsVersion → Option Text → Result OpError Bool
since_bound dependency version none = ok false
since_bound dependency version (some since) =
    bound_from dependency version since (MacOsVersion.from_str since)

unfoldable pub include_uses_from_macos : UsesFromMacos → BottleTag → Result OpError Bool
include_uses_from_macos dependency (linux arch) = ok true
include_uses_from_macos dependency (mac_os arch version) =
    since_bound dependency version dependency.since
include_uses_from_macos dependency BottleTag.all = err universal_not_host

abbrev dependency_edges : List Dependency → List Edge
dependency_edges [] = []
dependency_edges (d ∷ ds) = record { name = d.name; tags = d.tags } ∷ dependency_edges ds

-- The second loop, behind the edges that the first has made.
abbrev macos_edges : List UsesFromMacos → BottleTag → List Edge → Result OpError (List Edge)
macos_edges [] target result = ok result
macos_edges (d ∷ ds) target result =
    let rest = macos_edges ds target in
    include_uses_from_macos d target >>= λ included.
    if included then rest (result ++ record { name = d.name; tags = d.tags } ∷ []) else rest result

unfoldable pub edges : Formula → BottleTag → Result OpError (List Edge)
edges f target = macos_edges f.uses_from_macos target (dependency_edges f.dependencies)
