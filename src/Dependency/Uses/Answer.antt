-- ===== src/Dependency/Uses/Answer.antt =====
-- The induction over `collect_reachable`, and the answer of `formula_reaches_all`.
use mathlib.Core.Bool.{false≢true}
use zapbrew.Base.{
  ℕ, zero, suc, ◌+◌, ◌<◌, length, Text, Bool, true, false, List, [], ◌∷◌, some, ◌≡◌, refl, sym, ◌∙◌,
  Occurs, inl, inr, Bool-cases, arith, Distinct-length, Result, ok, err,
}
use zapbrew.Catalog.{Formula, get, index}
use zapbrew.Catalog.Agreement.{get-canonical}
use zapbrew.Dependency.{OpError, includes, Edge, formula, edges}
use zapbrew.Dependency.Uses.{UsesOptions, Marks, reach, collect_edges, collect_reachable}
use zapbrew.Dependency.Uses.Reached.{
  graph_of, Beyond, Truth, Marked, Closed, Grows, Grows-refl, Grows-trans, Collects, reach-Good,
}
use zapbrew.Dependency.Walk.{contains}
use zapbrew.Dependency.Walk.Induction.{Good, bind-Good, Asks}
use zapbrew.Dependency.Walk.Steps.{formula-Good, map-Good}
use zapbrew.Dependency.Walk.Invariants.{Reach}
use zapbrew.Dependency.Walk.Faults.{edges-Unjudged, names_room}

module _ (fs : List Formula) (options : UsesOptions) (root : Text) where
  -- The selected edges among `es` lead to reached names.
  abbrev Led : Bool → List Edge → Marks → Type 0
  Led flag es s =
      (e : Edge) (d : Formula)
      → Occurs e es
      → includes options.filter e.tags flag ≡ true
      → get (index fs) e.name ≡ some d
      → Occurs d.name s.reached

  -- What the loop over the edges `es` of `f` returns.
  abbrev Loops : ℕ → (Formula → Marks → Result OpError Marks) → Formula → List Edge → Type 0
  Loops fuel collect f es =
      (s : Marks)
      → Marked fs options root s
      → length fs < suc fuel + length s.visited
      → Good
          (λ s'.
            Marked fs options root s'
            × Grows fs options root s s'
            × Led (contains (root ∷ []) f.name) es s')
          (Truth fs options root)
          (collect_edges (index fs) options collect (contains (root ∷ []) f.name) es s)

  -- Lists that grow without repetition leave the fuel enough.
  still_enough :
      (fuel : ℕ) (s s' : Marks)
      → Marked fs options root s
      → Grows fs options root s s'
      → length fs < suc fuel + length s.visited
      → length fs < suc fuel + length s'.visited
  still_enough fuel s s' w (v, r, n) enough =
      let longer = Distinct-length s.visited s'.visited w.distinct v in omega arith

  Loops-cons :
      (fuel : ℕ) (collect : Formula → Marks → Result OpError Marks)
      → Collects fs options root fuel false collect
      → (f : Formula) (found : List Edge) (edge : Edge) (es : List Edge)
      → get (index fs) f.name ≡ some f
      → edges f options.host ≡ ok found
      → Occurs edge found
      → Reach (index fs) (graph_of options) (root ∷ []) f.name
      → Loops fuel collect f es
      → Loops fuel collect f (edge ∷ es)
  unfolding collect_edges
  Loops-cons fuel collect hc f found edge es own made among before rest s w enough =
      elim (Bool-cases (includes options.filter edge.tags flag)) [
        | inr skipped ↦ rw skipped (
            map-Good _ _ _ (collect_edges (index fs) options collect flag es s)
              (λ s' (w', g, led). (w', g, skip s' skipped led)) (rest s w enough))
        | inl selected ↦ rw selected (
            bind-Good (λ d. get (index fs) edge.name ≡ some d) _ _ (formula (index fs) edge.name) _
              (formula-Good (index fs) edge.name (Truth fs options root)
                (λ e. (e, f.name, before, asks selected)))
              λ d got.
                bind-Good _ _ _ (reach collect d s (contains s.visited d.name)) _
                  (reach-Good fs options root fuel collect hc d s (contains s.visited d.name) refl
                    ((get-canonical fs edge.name d got).0) (beyond d selected got) w enough)
                  (after d got))
      ]
    where
      flag : Bool
      flag = contains (root ∷ []) f.name

      skip :
          (u : Marks)
          → includes options.filter edge.tags flag ≡ false
          → Led flag es u
          → Led flag (edge ∷ es) u
      skip u skipped led e d (inl same) sel got =
          let sel' : includes options.filter edge.tags flag ≡ true = rw (← same) sel in
          absurd (false≢true (sym skipped ∙ sel'))
      skip u skipped led e d (inr there) sel got = led e d there sel got

      asks :
          includes options.filter edge.tags flag ≡ true
          → Asks (index fs) (graph_of options) (root ∷ []) f.name edge.name
      asks selected = record {
        parent = f;
        found = own;
        all = found;
        made = made;
        edge = edge;
        among = among;
        selected = selected;
        spelled = refl;
      }

      beyond :
          (d : Formula)
          → includes options.filter edge.tags flag ≡ true
          → get (index fs) edge.name ≡ some d
          → Beyond fs options root d.name
      beyond d selected got = (
        f.name,
        before,
        record {
          parent = f;
          found = own;
          all = found;
          made = made;
          edge = edge;
          among = among;
          selected = selected;
          dependency = d;
          target = got;
          named = refl;
        },
      )

      after :
          (d : Formula)
          → get (index fs) edge.name ≡ some d
          → (u : Marks)
          → Marked fs options root u × Grows fs options root s u × Occurs d.name u.reached
          → Good
              (λ s'.
                Marked fs options root s' × Grows fs options root s s' × Led flag (edge ∷ es) s')
              (Truth fs options root)
              (collect_edges (index fs) options collect flag es u)
      after d got u (wu, gu, here) =
          map-Good _ _ _ (collect_edges (index fs) options collect flag es u)
            (λ s' (w', g, led).
              (w', Grows-trans fs options root s u s' gu g, join s' (g.1 d.name here) led))
            (rest u wu (still_enough fuel s u w gu enough))
        where
          join : (u' : Marks) → Occurs d.name u'.reached → Led flag es u' → Led flag (edge ∷ es) u'
          join u' here led e d' (inl same) sel got' =
              let got2 : get (index fs) edge.name ≡ some d' = rw (← same) got' in
              let one : d' ≡ d = ground (arith, got, got2) in rw one here
          join u' here led e d' (inr there) sel got' = led e d' there sel got'

  collect_edges-Good :
      (fuel : ℕ) (collect : Formula → Marks → Result OpError Marks)
      → Collects fs options root fuel false collect
      → (f : Formula) (found es : List Edge) → get (index fs) f.name ≡ some f
      → edges f options.host ≡ ok found
      → ((e : Edge) → Occurs e es → Occurs e found)
      → Reach (index fs) (graph_of options) (root ∷ []) f.name
      → Loops fuel collect f es
  unfolding collect_edges
  collect_edges-Good fuel collect hc f found [] own made among before =
      λ s w enough. (w, Grows-refl fs options root s, λ e d h. absurd h)
  collect_edges-Good fuel collect hc f found (edge ∷ es) own made among before =
      Loops-cons fuel collect hc f found edge es own made (among edge (inl refl)) before
        (collect_edges-Good fuel collect hc f found es own made (λ e h. among e (inr h)) before)

  edges-Good :
      (f : Formula)
      → get (index fs) f.name ≡ some f
      → Reach (index fs) (graph_of options) (root ∷ []) f.name
      → Good (λ es. edges f options.host ≡ ok es) (Truth fs options root) (edges f options.host)
  edges-Good f own before = go (edges f options.host) refl
    where
      go :
          (r : Result OpError (List Edge))
          → edges f options.host ≡ r
          → Good (λ es. edges f options.host ≡ ok es) (Truth fs options root) r
      go (ok es) e = e
      go (err failure) e =
          let (reason, same, unjudged) =
            edges-Unjudged (index fs) (graph_of options) (root ∷ []) f failure own before e in
          rw same unjudged

  Led-Closed :
      (f : Formula) (found : List Edge) (s : Marks)
      → get (index fs) f.name ≡ some f
      → edges f options.host ≡ ok found
      → Led (contains (root ∷ []) f.name) found s
      → Closed fs options root f.name s
  Led-Closed f found s own made led m h =
      let same_parent : h.parent ≡ f = ground (arith, h.found, own) in
      let e1 : edges f options.host ≡ ok h.all = rw (← same_parent) h.made in
      let same_edges : h.all ≡ found = ground (arith, e1, made) in
      rw (← h.named) (led h.edge h.dependency (rw (← same_edges) h.among) h.selected h.target)

  pub collect_reachable-Good :
      (fuel : ℕ) (flag : Bool)
      → Collects fs options root fuel flag (collect_reachable (index fs) options fuel flag)
  unfolding collect_reachable
  collect_reachable-Good zero flag = λ d s own is_flag before w enough.
      let room = names_room fs s.visited w.distinct w.known in absurd (omega arith)
  collect_reachable-Good (suc fuel) flag = λ d s own is_flag before w enough.
      bind-Good (λ es. edges d options.host ≡ ok es) _ _ (edges d options.host) _
        (edges-Good d own before)
        λ found made. rw (← is_flag) (
          map-Good _ _ _
            (collect_edges (index fs) options (collect_reachable (index fs) options fuel false)
              (contains (root ∷ []) d.name) found s)
            (λ s' (w', g, led). (w', g, Led-Closed d found s' own made led))
            (collect_edges-Good fuel (collect_reachable (index fs) options fuel false)
              (collect_reachable-Good fuel false) d found found own made (λ e h. h) before s w
              enough))
