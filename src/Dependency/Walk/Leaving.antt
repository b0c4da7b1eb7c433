-- ===== src/Dependency/Walk/Leaving.antt =====
-- Leaving a formula keeps the invariant of `Traversal`, and the induction over `visit` for it.
use zapbrew.Base.{
  Text, Bool, true, false, List, [], ◌∷◌, ◌++◌, if◌then◌else◌, ◌≡◌, refl, ap, ◌∙◌, Occurs, inl, inr,
  ◌⊎◌, Distinct, Distinct-snoc, Distinct-init, Distinct-last, Occurs-append_left,
  Occurs-append_right, Occurs-append_cases,
}
use zapbrew.Catalog.{Formula, Catalog}
use zapbrew.Dependency.{DependencyOptions}
use zapbrew.Dependency.Walk.{Traversal, contains, pop, left}
use zapbrew.Dependency.Walk.Induction.{contains→Occurs, contains-fresh, pop-append, Needs}
use zapbrew.Dependency.Walk.Chains.{Chain-init}
use zapbrew.Dependency.Walk.Invariants.{Sorted, Sorted-snoc, Walked}

module _ (c : Catalog) (o : DependencyOptions) (roots : List Text) where
  -- The part of the invariant that is about the order.
  abbrev Ordered : List Text → List Text → Type 0
  Ordered complete order =
      ((x : Text) → Occurs x complete → Occurs x roots ⊎ Occurs x order)
      × ((x : Text) → Occurs x order → Occurs x complete × ¬ Occurs x roots)
      × Distinct order
      × Sorted c o roots [] order

  left-Ordered :
      (name : Text) (complete order : List Text) (b : Bool)
      → contains roots name ≡ b
      → Ordered complete order
      → ¬ Occurs name complete
      → ((m : Text) → Needs c o roots name m → Occurs m complete)
      → Ordered (name ∷ complete) (if b then order else order ++ name ∷ [])
  left-Ordered name complete order true e (listed, within, once, sorted) new done = (
    λ x h. elim h [
      | inl same ↦ inl (rw same (contains→Occurs roots name e))
      | inr there ↦ listed x there
    ],
    λ x h. let (held, n) = within x h in (inr held, n),
    once,
    sorted,
  )
  left-Ordered name complete order false e (listed, within, once, sorted) new done = (
    λ x h. elim h [
      | inl same ↦ inr (Occurs-append_right x order (name ∷ []) (inl same))
      | inr there ↦ elim (listed x there) [
        | inl r ↦ inl r
        | inr a ↦ inr (Occurs-append_left x order (name ∷ []) a)
      ]
    ],
    λ x h. elim (Occurs-append_cases x order (name ∷ []) h) [
      | inl a ↦ let (held, n) = within x a in (inr held, n)
      | inr (inl same) ↦ (inl same, rw same (contains-fresh roots name e))
      | inr (inr nowhere) ↦ absurd nowhere
    ],
    Distinct-snoc order name once (λ h. new ((within name h).0)),
    Sorted-snoc c o roots [] order name sorted
        λ m needs. elim (listed m (done m needs)) [ inl r ↦ inl r | inr a ↦ inr (inr a) ],
  )

  pub left-Walked :
      (t : Traversal) (f : Formula) (before : List Text)
      → Walked c o roots t
      → t.active ≡ before ++ f.name ∷ []
      → ((m : Text) → Needs c o roots f.name m → Occurs m t.complete)
      → Walked c o roots (left (contains roots f.name) f.name t)
  left-Walked t f before w top done =
      let (listed, within, once, sorted) =
        left-Ordered f.name t.complete t.order (contains roots f.name) refl
          (w.listed, w.order_complete, w.once, w.sorted) (w.apart f.name here) done in
      record {
        distinct = rw back (Distinct-init before f.name whole);
        apart = λ x h d. elim d [
          | inl same ↦ Distinct-last before f.name whole (rw (same, back) at h)
          | inr there ↦ w.apart x (kept x h) there
        ];
        known = λ x h. w.known x (kept x h);
        chain = rw back (Chain-init c o roots before f.name (rw top at w.chain));
        reached_active = λ x h. w.reached_active x (kept x h);
        reached = λ x h. elim h [
          | inl same ↦ rw same (w.reached_active f.name here)
          | inr there ↦ w.reached x there
        ];
        closed = λ x m h needs. elim h [
          | inl same ↦ inr (done m (rw same at needs))
          | inr there ↦ inr (w.closed x m there needs)
        ];
        listed = listed;
        order_complete = within;
        once = once;
        sorted = sorted;
      }
    where
      back : pop t.active ≡ before
      back = ap pop top ∙ pop-append before f.name

      whole : Distinct (before ++ f.name ∷ [])
      whole = rw top at w.distinct

      here : Occurs f.name t.active
      here = rw top (Occurs-append_right f.name before (f.name ∷ []) (inl refl))

      kept : (x : Text) → Occurs x (pop t.active) → Occurs x t.active
      kept x h = rw top (Occurs-append_left x before (f.name ∷ []) (rw back at h))
