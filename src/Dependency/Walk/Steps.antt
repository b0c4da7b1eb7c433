-- ===== src/Dependency/Walk/Steps.antt =====
-- The loop over the edges in the induction over `Traversal::visit`.
use zapbrew.Base.{
  ℕ, ◌+◌, ◌<◌, Text, text_eq_refl, Bool, true, false, List, [], ◌∷◌, ◌++◌, Option, none, some,
  length, Result, ok, err, ◌≡◌, refl, sym, ◌∙◌, arith, Occurs, inl, inr, Bool-cases,
}
use mathlib.Core.Bool.{false≢true}
use zapbrew.Catalog.{Formula, Catalog, lookup, get}
use zapbrew.Dependency.{
  OpError, missing_formula, includes, DependencyOptions, MergedTags, Edge, formula, formula_from,
  edges, from_tags,
}
use zapbrew.Dependency.Walk.{Traversal, contains, note, noted, merged_with, visit_edges}
use zapbrew.Dependency.Walk.Induction.{Good, bind-Good, Asks, Ready, Invariant, Follows}

pub map-Good :
    {A : Type 0} (Q R : A → Type 0) (E : OpError → Type 0) (m : Result OpError A)
    → ((a : A) → Q a → R a)
    → Good Q E m
    → Good R E m
map-Good Q R E (ok a) h q = h a q
map-Good Q R E (err e) h q = q

lookup-note :
    (name : Text) (e : Edge) (m : List (Text × MergedTags))
    → lookup name (note name e.tags m) ≡ some (merged_with (lookup name m) (from_tags e.tags))
unfolding lookup note
lookup-note name e m = rw (text_eq_refl name) refl

pub formula-Good :
    (c : Catalog) (name : Text) (E : OpError → Type 0)
    → (get c name ≡ none → E (missing_formula name))
    → Good (λ f. get c name ≡ some f) E (formula c name)
unfolding formula
formula-Good c name E lost = go (get c name) refl
  where
    go :
        (g : Option Formula)
        → get c name ≡ g
        → Good (λ f. get c name ≡ some f) E (formula_from name g)
    go none e = lost e
    go (some f) e = e

module _ (c : Catalog) (o : DependencyOptions) (roots : List Text)
    (own : (name : Text) (f : Formula) → get c name ≡ some f → get c f.name ≡ some f)
    (P : Traversal → Type 0) (E : OpError → Type 0) (n : ℕ) (inv : Invariant c o roots P E n) where
  -- What a visit of a name that is ready returns.
  abbrev pub Visits : ℕ → (Text → Traversal → Result OpError Traversal) → Type 0
  Visits fuel v =
      (name : Text) (f : Formula) (t : Traversal)
      → get c name ≡ some f
      → f.name ≡ name
      → P t
      → Ready c o roots t name
      → n < fuel + length t.active
      → Good (λ t'. P t' × Follows c o roots t t' × Occurs name t'.complete) E (v name t)

  -- The selected edges among `es` lead to complete formulae.
  abbrev pub Done : Bool → List Edge → Traversal → Type 0
  Done root es t =
      (e : Edge) (d : Formula)
      → Occurs e es
      → includes o.filter e.tags root ≡ true
      → get c e.name ≡ some d
      → Occurs d.name t.complete

  -- What the loop over the edges `es` of `f` returns.
  abbrev pub Loops :
      ℕ → (Text → Traversal → Result OpError Traversal) → Formula → List Text → List Edge → Type 0
  Loops fuel v f before es =
      (t : Traversal)
      → P t
      → t.active ≡ before ++ f.name ∷ []
      → n < fuel + length t.active
      → Good (λ t'. P t' × Follows c o roots t t' × Done (contains roots f.name) es t') E
          (visit_edges c o roots v (contains roots f.name) es t)

  Loops-cons :
      (fuel : ℕ) (v : Text → Traversal → Result OpError Traversal)
      → Visits fuel v
      → (f : Formula) (before : List Text) (all : List Edge) (edge : Edge) (es : List Edge)
      → get c f.name ≡ some f
      → edges f o.target ≡ ok all
      → Occurs edge all
      → Loops fuel v f before es
      → Loops fuel v f before (edge ∷ es)
  unfolding visit_edges
  Loops-cons fuel v hv f before all edge es found made among rest t p top enough =
      elim (Bool-cases (includes o.filter edge.tags (contains roots f.name))) [
        | inr skipped ↦ rw skipped (
            map-Good _ _ E (visit_edges c o roots v (contains roots f.name) es t)
              (λ t' (p', follows, done). (p', follows, skip t' skipped done)) (rest t p top enough))
        | inl selected ↦ rw selected (
            bind-Good (λ d. get c edge.name ≡ some d) _ E (formula c edge.name) _
              (formula-Good c edge.name E (inv.lost t f before edge.name p top (asks selected)))
              λ d got.
                bind-Good _ _ E (v d.name (noted d.name edge.tags t)) _
                  (hv d.name d (noted d.name edge.tags t) (own edge.name d got) refl
                    (inv.noting t d.name edge p) (ready d selected got) enough)
                  (after d got))
      ]
    where
      root : Bool
      root = contains roots f.name

      skip :
          (u : Traversal)
          → includes o.filter edge.tags root ≡ false
          → Done root es u
          → Done root (edge ∷ es) u
      skip u skipped done e d (inl same) sel got =
          let sel' : includes o.filter edge.tags root ≡ true = rw (← same) sel in
          absurd (false≢true (sym skipped ∙ sel'))
      skip u skipped done e d (inr there) sel got = done e d there sel got

      asks : includes o.filter edge.tags root ≡ true → Asks c o roots f.name edge.name
      asks selected = record {
        parent = f;
        found = found;
        all = all;
        made = made;
        edge = edge;
        among = among;
        selected = selected;
        spelled = refl;
      }

      ready :
          (d : Formula)
          → includes o.filter edge.tags root ≡ true
          → get c edge.name ≡ some d
          → Ready c o roots (noted d.name edge.tags t) d.name
      ready d selected got = inr (
        before,
        f.name,
        top,
        record {
          parent = f;
          found = found;
          all = all;
          made = made;
          edge = edge;
          among = among;
          selected = selected;
          dependency = d;
          target = got;
          named = refl;
        },
        _,
        lookup-note d.name edge t.merged,
      )

      after :
          (d : Formula)
          → get c edge.name ≡ some d
          → (u : Traversal)
          → P u × Follows c o roots (noted d.name edge.tags t) u × Occurs d.name u.complete
          → Good
              (λ t'. P t' × Follows c o roots t t' × Done root (edge ∷ es) t')
              E
              (visit_edges c o roots v root es u)
      after d got u (pu, (same, more), here) =
          map-Good _ _ E (visit_edges c o roots v root es u)
            (λ t' (p', (same', more'), done).
              (p', (same' ∙ same, λ x h. more' x (more x h)), join t' (more' d.name here) done))
            (rest u pu (same ∙ top) (rw same enough))
        where
          join :
              (t' : Traversal)
              → Occurs d.name t'.complete
              → Done root es t'
              → Done root (edge ∷ es) t'
          join t' here done e d' (inl same) sel got' =
              let got2 : get c edge.name ≡ some d' = rw (← same) got' in
              let one : d' ≡ d = ground (arith, got, got2) in rw one here
          join t' here done e d' (inr there) sel got' = done e d' there sel got'

  pub visit_edges-Good :
      (fuel : ℕ) (v : Text → Traversal → Result OpError Traversal)
      → Visits fuel v
      → (f : Formula) (before : List Text) (all es : List Edge) → get c f.name ≡ some f
      → edges f o.target ≡ ok all
      → ((e : Edge) → Occurs e es → Occurs e all)
      → Loops fuel v f before es
  unfolding visit_edges
  visit_edges-Good fuel v hv f before all [] found made among =
      λ t p top enough. (p, (refl, λ x h. h), λ e d h. absurd h)
  visit_edges-Good fuel v hv f before all (edge ∷ es) found made among =
      Loops-cons fuel v hv f before all edge es found made (among edge (inl refl))
        (visit_edges-Good fuel v hv f before all es found made λ e h. among e (inr h))
