-- ===== src/Catalog/Agreement.antt =====
-- `Catalog::get` and `Catalog::resolve` on the catalogs that `Catalog::index` builds.
use zapbrew.Base.{
  ℕ, zero, suc, ◌<◌, Text, List, [], ◌∷◌, Option, none, some, get_elem?, ◌≡◌, refl, arith, Occurs,
  inl, inr, length,
}
use zapbrew.Catalog.{
  Formula, Catalog, lookup, index, position_of, get, Resolution, exact, alias, oldname, missing,
  resolve, resolve_exact, resolve_alias, resolve_oldname,
}
use zapbrew.Catalog.Index.{Indexed, index-Indexed, get-place}

get_elem?-below :
    {A : Type 0} (xs : List A) (i : ℕ) (x : A) → get_elem? xs i ≡ some x → i < length xs
get_elem?-below [] i x e = ground arith
get_elem?-below (y ∷ xs) zero x e = omega arith
get_elem?-below (y ∷ xs) (suc i) x e = omega (arith, get_elem?-below xs i x e)

get_elem?-Occurs :
    {A : Type 0} (xs : List A) (i : ℕ) (x : A) → get_elem? xs i ≡ some x → Occurs x xs
get_elem?-Occurs [] i x e = ground arith
get_elem?-Occurs (y ∷ xs) zero x e = inl (ground arith)
get_elem?-Occurs (y ∷ xs) (suc i) x e = inr (get_elem?-Occurs xs i x e)

-- What `get` returns for a name it also returns for its own name, and it is one of the formulae of
-- the catalog.
pub get-canonical :
    (fs : List Formula) (name : Text) (f : Formula)
    → get (index fs) name ≡ some f
    → (get (index fs) f.name ≡ some f) × Occurs f fs
unfolding get
get-canonical fs name f got =
    let h = index-Indexed fs in
    let (i, found, at) = get-place fs (length fs) (index fs) name f h got in
    (rw (found, h.formulae) at, get_elem?-Occurs fs i f at)

-- A resolution says what `get` returns.
abbrev pub Agrees : Catalog → Text → Resolution → Type 0
Agrees c name exact = (f : Formula) × (get c name ≡ some f) × (f.name ≡ name)
Agrees c name (alias real) =
    (f : Formula) × (get c name ≡ some f) × (get c real ≡ some f) × (f.name ≡ real)
Agrees c name (oldname new) =
    (f : Formula) × (get c name ≡ some f) × (get c new ≡ some f) × (f.name ≡ new)
Agrees c name (missing near) = get c name ≡ none

get_by_index :
    (fs : List Formula) (n : ℕ) (c : Catalog) (name : Text) (i : ℕ)
    → Indexed fs n c
    → lookup name c.by_name ≡ some i
    → (f : Formula) × (get c name ≡ some f) × (f.name ≡ name) × (get_elem? c.formulae i ≡ some f)
unfolding get
get_by_index fs n c name i h found =
    let (f, at, named) = h.sound name i found in
    (f, rw (found, h.formulae) at, named, rw h.formulae at)

-- On the catalog that `index` builds of any formulae, `resolve` agrees with `get`: an exact match
-- is the formula of that name, an alias or an old name gives the formula of the name that it stands
-- for, and a name is missing only if `get` finds nothing.
pub resolve-Agrees :
    (near : Text → List Text) (fs : List Formula) (name : Text)
    → Agrees (index fs) name (resolve near (index fs) name)
unfolding resolve get position_of
resolve-Agrees near fs name =
    by_name (lookup name (index fs).by_name) (lookup name (index fs).aliases)
      (lookup name (index fs).oldnames) refl refl refl
  where
    c : Catalog
    c = index fs

    h : Indexed fs (length fs) c
    h = index-Indexed fs

    by_name :
        (o : Option ℕ) (a b : Option Text)
        → lookup name c.by_name ≡ o
        → lookup name c.aliases ≡ a
        → lookup name c.oldnames ≡ b
        → Agrees c name (resolve_exact (resolve_alias (resolve_oldname (near name) b) a) o)
    by_name (some i) a b e ea eb =
        let (f, got, named, at) = get_by_index fs (length fs) c name i h e in (f, got, named)
    by_name none (some real) b e ea eb =
        let (j, ej) = h.aliases name real ea in
        let (f, got, named, at) = get_by_index fs (length fs) c real j h ej in
        (f, rw (e, ea, ej) at, got, named)
    by_name none none (some new) e ea eb =
        let (j, ej) = h.oldnames name new eb in
        let (f, got, named, at) = get_by_index fs (length fs) c new j h ej in
        (f, rw (e, ea, eb, ej) at, got, named)
    by_name none none none e ea eb = rw (e, ea, eb) refl
