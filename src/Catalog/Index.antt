-- ===== src/Catalog/Index.antt =====
-- What `index` establishes, and what `get` returns on an indexed catalog.
use zapbrew.Base.{
  ℕ, suc, ◌+◌, ◌<◌, Text, text_eq, text_eq→eq, text_eq_refl, List, [], ◌∷◌, Option, none, some,
  get_elem?, ◌≡◌, refl, ap, sym, ◌∙◌, arith, inl, inr, Bool-cases, length,
}
use native.Mathlib.Decide.{dec_lt}
use mathlib.Core.Bool.{false≢true}
use zapbrew.Catalog.{
  Formula, Catalog, lookup, insert, insert_all, index_one, index_from, index, position_of,
  formula_at, get_alias, get_exact, get,
}

module _ (fs : List Formula) where
  -- An entry of `by_name` points at a formula of that name.
  abbrev pub NamesSound : List (Text × ℕ) → Type 0
  NamesSound m =
      (k : Text) (i : ℕ)
      → lookup k m ≡ some i
      → (f : Formula) × (get_elem? fs i ≡ some f) × (f.name ≡ k)

  -- Each of the first `n` formulae has an entry.
  abbrev pub NamesTotal : ℕ → List (Text × ℕ) → Type 0
  NamesTotal n m =
      (i : ℕ) (f : Formula) → i < n → get_elem? fs i ≡ some f → (j : ℕ) × (lookup f.name m ≡ some j)

-- An entry of a second map leads to an entry of `by_name`.
abbrev pub Leads : List (Text × Text) → List (Text × ℕ) → Type 0
Leads m names = (k r : Text) → lookup k m ≡ some r → (j : ℕ) × (lookup r names ≡ some j)

pub record Indexed (fs : List Formula) (n : ℕ) (c : Catalog) : Type 0 where
  pub formulae : c.formulae ≡ fs
  pub sound : NamesSound fs c.by_name
  pub total : NamesTotal fs n c.by_name
  pub aliases : Leads c.aliases c.by_name
  pub oldnames : Leads c.oldnames c.by_name

NamesSound-insert :
    (fs : List Formula) (m : List (Text × ℕ)) (f : Formula) (n : ℕ)
    → NamesSound fs m
    → get_elem? fs n ≡ some f
    → NamesSound fs (insert f.name n m)
unfolding lookup
NamesSound-insert fs m f n h e k i found = elim (Bool-cases (text_eq f.name k)) [
  | inl same ↦ let here : n ≡ i = ground arith in (f, rw (← here) e, text_eq→eq f.name k same)
  | inr other ↦ h k i (rw other at found)
]

NamesTotal-insert :
    (fs : List Formula) (m : List (Text × ℕ)) (f : Formula) (n : ℕ)
    → NamesTotal fs n m
    → get_elem? fs n ≡ some f
    → NamesTotal fs (suc n) (insert f.name n m)
unfolding lookup
NamesTotal-insert fs m f n h e i g lt at_i = elim (Bool-cases (text_eq f.name g.name)) [
  | inl same ↦ (n, rw same refl)
  | inr other ↦ elim (dec_lt i n) [
    | yes before ↦ let (j, e') = h i g before at_i in (j, rw other e')
    | no not_before ↦
        let place : i ≡ n = omega arith in
        let at_n : get_elem? fs n ≡ some g = rw (← place) at_i in
        let same : g ≡ f = ground (arith, e, at_n) in
        absurd (false≢true (sym other ∙ rw same (text_eq_refl f.name)))
  ]
]

-- More names keep what leads to the old ones.
Leads-insert :
    (m : List (Text × Text)) (names : List (Text × ℕ)) (k : Text) (n : ℕ)
    → Leads m names
    → Leads m (insert k n names)
unfolding lookup
Leads-insert m names k n h j r found =
    let (i, e) = h j r found in
    elim (Bool-cases (text_eq k r)) [
      | inl same ↦ (n, rw same refl)
      | inr other ↦ (i, rw (other, e) refl)
    ]

Leads-insert_all :
    (ks : List Text) (name : Text) (m : List (Text × Text)) (names : List (Text × ℕ)) (n : ℕ)
    → lookup name names ≡ some n
    → Leads m names
    → Leads (insert_all ks name m) names
unfolding insert_all lookup
Leads-insert_all [] name m names n e h = h
Leads-insert_all (k ∷ ks) name m names n e h =
    Leads-insert_all ks name (insert k name m) names n e λ j r found.
      elim (Bool-cases (text_eq k j)) [
        | inl same ↦ let here : name ≡ r = ground arith in (n, rw (← here) e)
        | inr other ↦ h j r (rw other at found)
      ]

index_from-Indexed :
    (fs : List Formula) (n : ℕ) (rest : List Formula) (c : Catalog)
    → ((j : ℕ) → get_elem? fs (n + j) ≡ get_elem? rest j)
    → length fs ≡ n + length rest
    → Indexed fs n c
    → Indexed fs (length fs) (index_from n rest c)
unfolding index_from lookup
index_from-Indexed fs n [] c at size h = let all_done : length fs ≡ n = omega arith in rw all_done h
index_from-Indexed fs n (f ∷ rest) c at size h =
    index_from-Indexed fs (suc n) rest (index_one n f c)
      (λ j. let moved : suc n + j ≡ n + suc j = omega arith in ap (get_elem? fs) moved ∙ at (suc j))
      (omega arith)
      (record {
        formulae = h.formulae;
        sound = NamesSound-insert fs c.by_name f n h.sound here;
        total = NamesTotal-insert fs c.by_name f n h.total here;
        aliases =
            Leads-insert_all f.aliases f.name c.aliases (insert f.name n c.by_name) n found
              (Leads-insert c.aliases c.by_name f.name n h.aliases);
        oldnames =
            Leads-insert_all f.oldnames f.name c.oldnames (insert f.name n c.by_name) n found
              (Leads-insert c.oldnames c.by_name f.name n h.oldnames);
      })
  where
    here : get_elem? fs n ≡ some f
    here = let moved : n ≡ n + 0 = omega arith in ap (get_elem? fs) moved ∙ at 0

    found : lookup f.name (insert f.name n c.by_name) ≡ some n
    found = rw (text_eq_refl f.name) refl

pub index-Indexed : (fs : List Formula) → Indexed fs (length fs) (index fs)
unfolding index lookup
index-Indexed fs =
    index_from-Indexed fs 0 fs _ (λ j. ap (get_elem? fs) (omega arith)) (omega arith)
      (record {
        formulae = refl;
        sound = λ k i e. cc;
        total = λ i f lt e. absurd (omega arith);
        aliases = λ k r e. cc;
        oldnames = λ k r e. cc;
      })

-- Where what `get` returns stands.
pub get-place :
    (fs : List Formula) (n : ℕ) (c : Catalog) (name : Text) (f : Formula)
    → Indexed fs n c
    → get c name ≡ some f
    → (i : ℕ) × (lookup f.name c.by_name ≡ some i) × (get_elem? fs i ≡ some f)
unfolding get position_of
get-place fs n c name f h got = by_name (lookup name c.by_name) refl got
  where
    at_index :
        (k : Text) (i : ℕ)
        → lookup k c.by_name ≡ some i
        → get_elem? c.formulae i ≡ some f
        → (i' : ℕ) × (lookup f.name c.by_name ≡ some i') × (get_elem? fs i' ≡ some f)
    at_index k i found e =
        let (g, at, named) = h.sound k i found in
        let here : get_elem? fs i ≡ some f = rw h.formulae at e in
        let same : g ≡ f = ground (arith, at, here) in (i, rw (← same, named) found, here)

    through :
        (o : Option Text)
        → formula_at c (position_of c o) ≡ some f
        → (i : ℕ) × (lookup f.name c.by_name ≡ some i) × (get_elem? fs i ≡ some f)
    through none e = ground arith
    through (some r) e = go (lookup r c.by_name) refl e
      where
        go :
            (o : Option ℕ)
            → lookup r c.by_name ≡ o
            → formula_at c o ≡ some f
            → (i : ℕ) × (lookup f.name c.by_name ≡ some i) × (get_elem? fs i ≡ some f)
        go none found e = ground arith
        go (some i) found e = at_index r i found e

    by_alias :
        (o : Option ℕ)
        → position_of c (lookup name c.aliases) ≡ o
        → get_alias c name o ≡ some f
        → (i : ℕ) × (lookup f.name c.by_name ≡ some i) × (get_elem? fs i ≡ some f)
    by_alias none found e = through (lookup name c.oldnames) e
    by_alias (some i) found e = through (lookup name c.aliases) (rw found e)

    by_name :
        (o : Option ℕ)
        → lookup name c.by_name ≡ o
        → get_exact c name o ≡ some f
        → (i : ℕ) × (lookup f.name c.by_name ≡ some i) × (get_elem? fs i ≡ some f)
    by_name none found e = by_alias (position_of c (lookup name c.aliases)) refl e
    by_name (some i) found e = at_index name i found e
