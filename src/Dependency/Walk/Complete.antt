-- ===== src/Dependency/Walk/Complete.antt =====
-- Each name of the order has an entry in `merged`, so `expand` leaves none of them out.
use zapbrew.Base.{
  ℕ, length, Text, text_eq, text_eq→eq, false, List, [], ◌∷◌, ◌++◌, some, ◌≡◌, refl, ap, ◌∙◌,
  Occurs, inl, inr, ◌⊎◌, Bool-cases, arith, Distinct, Occurs-append_left, Occurs-append_right,
  Occurs-append_cases, ok,
}
use zapbrew.Catalog.{Formula, Catalog, lookup, index}
use zapbrew.Catalog.Index.{index-Indexed}
use zapbrew.Catalog.Agreement.{get-canonical}
use zapbrew.Dependency.{OpError, DependencyOptions, every, MergedTags, Edge, from_tags}
use zapbrew.Dependency.Walk.{
  Traversal, merged_with, contains, pop, note, entered, left, start, visit_all, rounds, root_names,
  expand, expanded, remove, ExpandedDependency,
}
use zapbrew.Dependency.Walk.Induction.{Ready, Invariant, pop-append}
use zapbrew.Dependency.Walk.Visited.{visit_all-Good}
use zapbrew.Dependency.Walk.Invariants.{Reach, Walked, Truthful, start-Walked}
use zapbrew.Dependency.Walk.Faults.{Walked-Invariant}
use zapbrew.Dependency.Walk.Expansion.{IsOwn, IsLost, root_names-Good, names_of}
use zapbrew.Dependency.Walk.Outcome.{ok-Good, Refused, Ends, expand-Good, visit_all-Reach}

abbrev HasEntry : List (Text × MergedTags) → Text → Type 0
HasEntry merged x = (m : MergedTags) × (lookup x merged ≡ some m)

HasEntry-note :
    (name x : Text) (e : Edge) (merged : List (Text × MergedTags))
    → HasEntry merged x
    → HasEntry (note name e.tags merged) x
unfolding lookup note
HasEntry-note name x e merged (m, found) = elim (Bool-cases (text_eq name x)) [
  | inl hit ↦ (merged_with (lookup name merged) (from_tags e.tags), rw hit refl)
  | inr miss ↦ (m, rw miss found)
]

lookup-remove :
    (name x : Text) (merged : List (Text × MergedTags))
    → text_eq name x ≡ false
    → lookup x (remove name merged) ≡ lookup x merged
unfolding lookup
lookup-remove name x [] other = refl
lookup-remove name x ((k, v) ∷ merged) other = elim (Bool-cases (text_eq k name)) [
  | inl hit ↦
      let same : k ≡ name = text_eq→eq k name hit in
      let miss : text_eq k x ≡ false = rw same other in
      rw (hit, miss) (lookup-remove name x merged other)
  | inr miss ↦ rw (miss, lookup-remove name x merged other) refl
]

module _ (c : Catalog) (o : DependencyOptions) (roots : List Text) where
  -- What is visited and no root has an entry.
  abbrev Entered : Traversal → Type 0
  Entered t =
      (x : Text) → Occurs x t.active ⊎ Occurs x t.complete → Occurs x roots ⊎ HasEntry t.merged x

  abbrev Both : Traversal → Type 0
  Both t = Walked c o roots t × Entered t

  entered-Entered :
      (t : Traversal) (f : Formula)
      → Entered t
      → Ready c o roots t f.name
      → Entered (entered f.name t)
  entered-Entered t f h ready x (inr done) = h x (inr done)
  entered-Entered t f h ready x (inl on) = elim (Occurs-append_cases x t.active (f.name ∷ []) on) [
    | inl old ↦ h x (inl old)
    | inr (inl same) ↦ rw same (here ready)
    | inr (inr nowhere) ↦ absurd nowhere
  ]
    where
      here : Ready c o roots t f.name → Occurs f.name roots ⊎ HasEntry t.merged f.name
      here (inl (empty, root)) = inl root
      here (inr (before, p, top, needs, m, found)) = inr (m, found)

  left-Entered :
      (t : Traversal) (f : Formula) (before : List Text)
      → Entered t
      → t.active ≡ before ++ f.name ∷ []
      → Entered (left (contains roots f.name) f.name t)
  left-Entered t f before h top x (inl on) =
      let back : pop t.active ≡ before = ap pop top ∙ pop-append before f.name in
      h x (inl (rw top (Occurs-append_left x before (f.name ∷ []) (rw back at on))))
  left-Entered t f before h top x (inr (inl same)) =
      h x (inl (rw (same, top) (Occurs-append_right f.name before (f.name ∷ []) (inl refl))))
  left-Entered t f before h top x (inr (inr done)) = h x (inr done)

  Both-Invariant :
      (E : OpError → Type 0) (n : ℕ)
      → Invariant c o roots (Walked c o roots) E n
      → Invariant c o roots Both E n
  Both-Invariant E n inv = record {
    room = λ t (w, h). inv.room t w;
    lost = λ t f before name (w, h). inv.lost t f before name w;
    bad = λ t f e (w, h). inv.bad t f e w;
    circle = λ t name cycle (w, h) ready e. inv.circle t name cycle w ready e;
    noting = λ t name edge (w, h). (
      inv.noting t name edge w,
      λ x a. elim (h x a) [
        | inl r ↦ inl r
        | inr entry ↦ inr (HasEntry-note name x edge t.merged entry)
      ],
    );
    entering = λ t f (w, h) ready own fresh new.
        (inv.entering t f w ready own fresh new, entered-Entered t f h ready);
    leaving = λ t f before (w, h) top done.
        (inv.leaving t f before w top done, left-Entered t f before h top);
  }

-- With an entry for each name, the expansion in mode `every` has all names of the order.
expanded-all :
    (o : DependencyOptions) (merged : List (Text × MergedTags)) (order : List Text)
    → o.mode ≡ every
    → Distinct order
    → ((x : Text) → Occurs x order → HasEntry merged x)
    → names_of (expanded o merged order) ≡ order
unfolding expanded
expanded-all o merged [] mode d h = refl
expanded-all o merged (name ∷ order) mode (fresh, d) h =
    let (m, found) = h name (inl refl) in
    let rest = expanded-all o (remove name merged) order mode d still in
    let whole = ap (λ (r : List Text). name ∷ r) rest in rw (found, mode) whole
  where
    still : (x : Text) → Occurs x order → HasEntry (remove name merged) x
    still x a = elim (Bool-cases (text_eq name x)) [
      | inl hit ↦ absurd (fresh (rw (text_eq→eq name x hit) a))
      | inr other ↦ let (m, found) = h x (inr a) in (m, lookup-remove name x merged other ∙ found)
    ]

module _ (fs : List Formula) (o : DependencyOptions) where
  visit_all-Entered :
      (requests names : List Text) (t : Traversal)
      → root_names (index fs) requests [] ≡ ok names
      → visit_all (index fs) o names (rounds (index fs)) names start ≡ ok t
      → Entered (index fs) o names t
  visit_all-Entered requests names t made walked =
      let whole = ap (λ (gs : List Formula). length gs) ((index-Indexed fs).formulae) in
      let own =
        ok-Good (λ (ns : List Text). (y : Text) → Occurs y ns → IsOwn (index fs) y)
          (IsLost (index fs) requests) (root_names (index fs) requests []) names made
          (root_names-Good fs requests [] λ y h. absurd h) in
      let result =
        ok-Good _ (Truthful (index fs) o names)
          (visit_all (index fs) o names (rounds (index fs)) names start) t walked
          (visit_all-Good (index fs) o names (λ name f got. (get-canonical fs name f got).0)
            (Both (index fs) o names) (Truthful (index fs) o names) (length fs)
            (Both-Invariant (index fs) o names (Truthful (index fs) o names) (length fs)
              (Walked-Invariant fs o names))
            (rounds (index fs)) names start
            (λ x h. let (f, got, named) = own x h in (h, f, got, named))
            (start-Walked (index fs) o names, λ x h. elim h [ inl a ↦ absurd a | inr b ↦ absurd b ])
            refl (omega (arith, whole))) in
      result.0.1

  -- In the mode that prepares all dependency classes, `expand` leaves nothing out: each name that
  -- the roots reach over selected edges is a root or is returned.
  pub expand_complete :
      (requests : List Text) (ds : List ExpandedDependency)
      → o.mode ≡ every
      → expand (index fs) requests o ≡ ok ds
      → (names : List Text) × (root_names (index fs) requests [] ≡ ok names)
        × ((x : Text) → Reach (index fs) o names x → Occurs x names ⊎ Occurs x (names_of ds))
  expand_complete requests ds mode done =
      let (names, t, made, w, e, walked) =
        ok-Good (Ends fs o requests) (Refused fs o requests) (expand (index fs) requests o) ds done
          (expand-Good fs o requests) in
      let entered = visit_all-Entered requests names t made walked in
      let same = expanded-all o t.merged t.order mode w.once (entry t names w entered) in
      (
        names,
        made,
        λ x reach. elim (visit_all-Reach fs o requests names t made walked x reach) [
          | inl root ↦ inl root
          | inr there ↦ inr (rw (e, same) there)
        ],
      )
    where
      entry :
          (t : Traversal) (names : List Text)
          → Walked (index fs) o names t
          → Entered (index fs) o names t
          → (x : Text) → Occurs x t.order
          → HasEntry t.merged x
      entry t names w h x a =
          let (held, no_root) = w.order_complete x a in
          elim (h x (inr held)) [ inl root ↦ absurd (no_root root) | inr has ↦ has ]
