-- ===== src/Catalog.antt =====
-- crates/zapbrew-api/src/catalog.rs and the parts of model.rs that it indexes: the formula catalog
-- with its three maps. A `HashMap` is a list of entries of which the first for a key counts.
pub mod Agreement
pub mod Index
mod Tests
use zapbrew.Base.{
  ℕ, zero, suc, ◌+◌, Text, text_eq, Bool, List, [], ◌∷◌, Option, none, some, if◌then◌else◌,
  get_elem?,
}

-- model.rs
pub data DependencyTag : Type 0 where
  build test recommended optional : DependencyTag

pub record Dependency : Type 0 where
  pub name : Text
  pub tags : List DependencyTag

pub record UsesFromMacos : Type 0 where
  pub name : Text
  pub tags : List DependencyTag
  pub since : Option Text

-- The fields of `Formula` that the catalog and the dependency graph read.
pub record Formula : Type 0 where
  pub name : Text
  pub oldnames : List Text
  pub aliases : List Text
  pub dependencies : List Dependency
  pub uses_from_macos : List UsesFromMacos

module _ {V : Type 0} where
  unfoldable pub lookup : Text → List (Text × V) → Option V
  lookup k [] = none
  lookup k ((j, v) ∷ m) = let rest = lookup k m in if text_eq j k then some v else rest

  -- `HashMap::insert`
  abbrev pub insert : Text → V → List (Text × V) → List (Text × V)
  insert k v m = (k, v) ∷ m

pub record Catalog : Type 0 where
  pub formulae : List Formula
  pub by_name : List (Text × ℕ)
  pub aliases : List (Text × Text)
  pub oldnames : List (Text × Text)

-- The inner loops of `index`: each key is inserted with the formula's name.
unfoldable pub insert_all : List Text → Text → List (Text × Text) → List (Text × Text)
insert_all [] name m = m
insert_all (k ∷ ks) name m = insert_all ks name (insert k name m)

abbrev pub index_one : ℕ → Formula → Catalog → Catalog
index_one idx formula c = record c {
  by_name = insert formula.name idx c.by_name;
  aliases = insert_all formula.aliases formula.name c.aliases;
  oldnames = insert_all formula.oldnames formula.name c.oldnames;
}

-- The outer loop, over the formulae from position `idx` on.
unfoldable pub index_from : ℕ → List Formula → Catalog → Catalog
unfolding insert_all
index_from idx [] c = c
index_from idx (formula ∷ rest) c = index_from (suc idx) rest (index_one idx formula c)

unfoldable pub index : List Formula → Catalog
unfolding index_from
index formulae =
    index_from 0 formulae
      (record { formulae = formulae; by_name = []; aliases = []; oldnames = [] })

-- The position that `by_name` has for what a second map gives a name.
unfoldable pub position_of : Catalog → Option Text → Option ℕ
unfolding lookup
position_of c none = none
position_of c (some real) = lookup real c.by_name

abbrev pub formula_at : Catalog → Option ℕ → Option Formula
formula_at c none = none
formula_at c (some idx) = get_elem? c.formulae idx

abbrev pub get_oldname : Catalog → Text → Option Formula
get_oldname c name = formula_at c (position_of c (lookup name c.oldnames))

abbrev pub get_alias : Catalog → Text → Option ℕ → Option Formula
get_alias c name (some idx) = get_elem? c.formulae idx
get_alias c name none = get_oldname c name

abbrev pub get_exact : Catalog → Text → Option ℕ → Option Formula
get_exact c name (some idx) = get_elem? c.formulae idx
get_exact c name none = get_alias c name (position_of c (lookup name c.aliases))

-- Exact name, then alias, then oldname.
unfoldable pub get : Catalog → Text → Option Formula
unfolding lookup position_of
get c name = get_exact c name (lookup name c.by_name)

pub data Resolution : Type 0 where
  exact : Resolution
  alias : (real : Text) → Resolution
  oldname : (new : Text) → Resolution
  missing : (did_you_mean : List Text) → Resolution

abbrev pub resolve_oldname : List Text → Option Text → Resolution
resolve_oldname near (some new) = oldname new
resolve_oldname near none = missing near

abbrev pub resolve_alias : Resolution → Option Text → Resolution
resolve_alias other (some real) = alias real
resolve_alias other none = other

abbrev pub resolve_exact : Resolution → Option ℕ → Resolution
resolve_exact other (some idx) = exact
resolve_exact other none = other

-- `near` is what `suggestions` returns, which scores names by the jaro_winkler crate.
unfoldable pub resolve : (Text → List Text) → Catalog → Text → Resolution
resolve near c name =
    resolve_exact
      (resolve_alias (resolve_oldname (near name) (lookup name c.oldnames)) (lookup name c.aliases))
      (lookup name c.by_name)
