-- ===== src/Dependency/Walk/Visited.antt =====
-- The induction over `Traversal::visit`, on a catalog where a formula is found under its own name.
use zapbrew.Base.{
  ℕ, zero, suc, ◌+◌, ◌<◌, Text, Bool, true, false, List, [], ◌∷◌, Option, none, some, length,
  length-append, Result, ok, err, ◌≡◌, ◌≢◌, refl, ap, ◌∙◌, arith, Occurs, inl, inr,
}
use zapbrew.Catalog.{Formula, Catalog, get}
use zapbrew.Dependency.{OpError, DependencyOptions, Edge, formula, edges}
use zapbrew.Dependency.Walk.{
  Traversal, contains, cycle_from, pop, entered, visit_edges, visit_current, visit_from, visit,
  visit_all,
}
use zapbrew.Dependency.Walk.Induction.{
  Good, bind-Good, contains→Occurs, pop-append, Needs, Ready, Invariant, Follows,
}
use zapbrew.Dependency.Walk.Steps.{map-Good, formula-Good, Visits, Done, visit_edges-Good}

module _ (c : Catalog) (o : DependencyOptions) (roots : List Text)
    (own : (name : Text) (f : Formula) → get c name ≡ some f → get c f.name ≡ some f)
    (P : Traversal → Type 0) (E : OpError → Type 0) (n : ℕ) (inv : Invariant c o roots P E n) where
  edges-Good :
      (f : Formula) (t : Traversal)
      → P t
      → Ready c o roots t f.name
      → get c f.name ≡ some f
      → Good (λ es. edges f o.target ≡ ok es) E (edges f o.target)
  edges-Good f t p ready found = go (edges f o.target) refl
    where
      go :
          (r : Result OpError (List Edge))
          → edges f o.target ≡ r
          → Good (λ es. edges f o.target ≡ ok es) E r
      go (ok es) e = e
      go (err failure) e = inv.bad t f failure p ready found e

  visit_current-Good :
      (fuel : ℕ) (v : Text → Traversal → Result OpError Traversal)
      → Visits c o roots own P E n inv fuel v
      → (f : Formula) (t : Traversal) → get c f.name ≡ some f
      → P t
      → Ready c o roots t f.name
      → cycle_from f.name t.active ≡ none
      → contains t.complete f.name ≡ false
      → n < suc fuel + length t.active
      → Good
          (λ t'. P t' × Follows c o roots t t' × Occurs f.name t'.complete)
          E
          (visit_current c o roots v f t)
  unfolding visit_current
  visit_current-Good fuel v hv f t found p ready fresh new enough =
      bind-Good (λ es. edges f o.target ≡ ok es) _ E (edges f o.target) _
        (edges-Good f t p ready found)
        λ es made.
          bind-Good _ _ E (visit_edges c o roots v (contains roots f.name) es t1) _
            (visit_edges-Good c o roots own P E n inv fuel v hv f t.active es es found made
              (λ e h. h) t1 (inv.entering t f p ready found fresh new) refl
              (omega (arith, length-append t.active (f.name ∷ []))))
            λ t2 (p2, (same, more), done). (
              inv.leaving t2 f t.active p2 same (complete t2 made done),
              (ap pop same ∙ pop-append t.active f.name, λ x h. inr (more x h)),
              inl refl,
            )
    where
      t1 : Traversal
      t1 = entered f.name t

      complete :
          {es : List Edge} (u : Traversal)
          → edges f o.target ≡ ok es
          → Done c o roots own P E n inv (contains roots f.name) es u
          → (m : Text) → Needs c o roots f.name m
          → Occurs m u.complete
      complete {es} u made done m h =
          let same_parent : h.parent ≡ f = ground (arith, h.found, found) in
          let e1 : edges f o.target ≡ ok h.all = rw (← same_parent) h.made in
          let same_edges : h.all ≡ es = ground (arith, e1, made) in
          rw (← h.named) (done h.edge h.dependency (rw (← same_edges) h.among) h.selected h.target)

  visit_from-Good :
      (fuel : ℕ) (v : Text → Traversal → Result OpError Traversal)
      → Visits c o roots own P E n inv fuel v
      → (name : Text) (t : Traversal) → P t
      → Ready c o roots t name
      → n < suc fuel + length t.active
      → (k : Option (List Text)) → cycle_from name t.active ≡ k
      → (b : Bool) → contains t.complete name ≡ b
      → ((d : Formula) → get c name ≡ some d → d.name ≡ name)
      → get c name ≢ none
      → Good
          (λ t'. P t' × Follows c o roots t t' × Occurs name t'.complete)
          E
          (visit_from c o roots v name t k b)
  visit_from-Good fuel v hv name t p ready enough (some cycle) e b eb named there =
      inv.circle t name cycle p ready e
  visit_from-Good fuel v hv name t p ready enough none e true eb named there =
      (p, (refl, λ x h. h), contains→Occurs t.complete name eb)
  visit_from-Good fuel v hv name t p ready enough none e false eb named there =
      bind-Good (λ d. get c name ≡ some d) _ E (formula c name) _
        (formula-Good c name E (λ e. absurd (there e)))
        λ d got.
          let dn : d.name ≡ name = named d got in
          rw (← dn) (
            visit_current-Good fuel v hv d t (own name d got) p (rw dn ready) (rw dn e) (rw dn eb)
              enough)

  pub visit-Good : (fuel : ℕ) → Visits c o roots own P E n inv fuel (visit c o roots fuel)
  unfolding visit
  visit-Good zero =
      λ name f t found named p ready enough. let room = inv.room t p in absurd (omega arith)
  visit-Good (suc fuel) = λ name f t found named p ready enough.
      visit_from-Good fuel (visit c o roots fuel) (visit-Good fuel) name t p ready enough
        (cycle_from name t.active) refl (contains t.complete name) refl
        (λ d got. let one : d ≡ f = ground (arith, found, got) in rw one named) (λ e. cc)

  -- A visit of each of the roots, from an empty stack.
  pub visit_all-Good :
      (fuel : ℕ) (names : List Text) (t : Traversal)
      → ((name : Text)
          → Occurs name names
          → Occurs name roots × (f : Formula) × (get c name ≡ some f) × (f.name ≡ name))
      → P t
      → t.active ≡ []
      → n < fuel
      → Good
          (λ t'.
            P t'
            × (t'.active ≡ [])
            × ((x : Text) → Occurs x t.complete → Occurs x t'.complete)
            × ((x : Text) → Occurs x names → Occurs x t'.complete))
          E
          (visit_all c o roots fuel names t)
  unfolding visit_all
  visit_all-Good fuel [] t known p empty enough = (p, empty, (λ x h. h), λ x h. absurd h)
  visit_all-Good fuel (name ∷ names) t known p empty enough =
      let (among, f, found, named) = known name (inl refl) in
      bind-Good _ _ E (visit c o roots fuel name t) _
        (visit-Good fuel name f t found named p (inl (empty, among)) (rw empty (omega arith)))
        λ t2 (p2, (same, more), here).
          map-Good _ _ E (visit_all c o roots fuel names t2)
            (λ t' (p', e', more', all'). (
              p',
              e',
              (λ x h. more' x (more x h)),
              λ x h. elim h [ inl eq ↦ rw eq (more' name here) | inr there ↦ all' x there ],
            ))
            (visit_all-Good fuel names t2 (λ m h. known m (inr h)) p2 (same ∙ empty) enough)
