-- ===== src/Relocate/FollowedPaths.antt =====
-- relocate.rs: where a list of components leads, and which components a path has.
use zapbrew.Base.{
  ℕ, Text, bytes, text_eq, text_eq_iff, true, false, List, [], ◌∷◌, ◌++◌, split, push_first,
  Component, root_dir, cur_dir, parent_dir, normal, parts, component_eq, ◌==◌, ◌≡◌, refl, ap, ◌∙◌,
  inl, inr, Bool-cases,
}
use zapbrew.Relocate.PushedPaths.{Free, Plain}

-- Where following components leads, as the names from the last back to the root; `..` drops a name.
abbrev pub up : List Component → List Component
up [] = []
up (root_dir ∷ stack) = root_dir ∷ stack
up (c ∷ stack) = stack

unfoldable pub follow : List Component → List Component → List Component
follow stack [] = stack
follow stack (root_dir ∷ cs) = follow (root_dir ∷ []) cs
follow stack (cur_dir ∷ cs) = follow stack cs
follow stack (parent_dir ∷ cs) = follow (up stack) cs
follow stack (normal name ∷ cs) = follow (normal name ∷ stack) cs

pub follow-append :
    (stack cs ds : List Component) → follow stack (cs ++ ds) ≡ follow (follow stack cs) ds
unfolding follow
follow-append stack [] ds = refl
follow-append stack (root_dir ∷ cs) ds = follow-append (root_dir ∷ []) cs ds
follow-append stack (cur_dir ∷ cs) ds = follow-append stack cs ds
follow-append stack (parent_dir ∷ cs) ds = follow-append (up stack) cs ds
follow-append stack (normal name ∷ cs) ds = follow-append (normal name ∷ stack) cs ds

-- Components as `components` makes them behind the root.
abbrev pub Fit : List Component → Type 0
Fit [] = Unit
Fit (root_dir ∷ cs) = ⊥
Fit (cur_dir ∷ cs) = ⊥
Fit (parent_dir ∷ cs) = Fit cs
Fit (normal name ∷ cs) = (Plain name × (text_eq name (bytes "..") ≡ false)) × Fit cs

-- No component leads up.
abbrev pub NoParents : List Component → Type 0
NoParents [] = Unit
NoParents (parent_dir ∷ cs) = ⊥
NoParents (c ∷ cs) = NoParents cs

abbrev pub Frees : List Text → Type 0
Frees [] = Unit
Frees (p ∷ ps) = Free p × Frees ps

Frees-push_first :
    (c : ℕ) (ps : List Text) → ((c == b'/') ≡ false) → Frees ps → Frees (push_first c ps)
Frees-push_first c [] other h = ((other, tt), tt)
Frees-push_first c (p ∷ ps) other (free, h) = ((other, free), h)

pub Frees-split : (s : Text) → Frees (split b'/' s)
unfolding split
Frees-split [] = (tt, tt)
Frees-split (c ∷ cs) = elim (Bool-cases (c == b'/')) [
  | inl here ↦ rw here (tt, Frees-split cs)
  | inr other ↦ rw other (Frees-push_first c (split b'/' cs) other (Frees-split cs))
]

pub Fit-parts : (ps : List Text) → Frees ps → Fit (parts ps)
unfolding parts
Fit-parts [] h = tt
Fit-parts ([] ∷ ps) (free, h) = Fit-parts ps h
Fit-parts ((c ∷ cs) ∷ ps) (free, h) = elim (Bool-cases (text_eq (c ∷ cs) (bytes "."))) [
  | inl skipped ↦ rw skipped (Fit-parts ps h)
  | inr kept ↦ elim (Bool-cases (text_eq (c ∷ cs) (bytes ".."))) [
    | inl above ↦ rw (kept, above) (Fit-parts ps h)
    | inr named ↦ rw (kept, named) (((free, kept), named), Fit-parts ps h)
  ]
]

pub component_eq→eq : (c d : Component) → component_eq c d ≡ true → c ≡ d
unfolding component_eq
component_eq→eq root_dir root_dir h = refl
component_eq→eq cur_dir cur_dir h = refl
component_eq→eq parent_dir parent_dir h = refl
component_eq→eq (normal s) (normal t) h = ap normal ((text_eq_iff s t).0 h)
component_eq→eq root_dir cur_dir h = absurd cc
component_eq→eq root_dir parent_dir h = absurd cc
component_eq→eq root_dir (normal t) h = absurd cc
component_eq→eq cur_dir root_dir h = absurd cc
component_eq→eq cur_dir parent_dir h = absurd cc
component_eq→eq cur_dir (normal t) h = absurd cc
component_eq→eq parent_dir root_dir h = absurd cc
component_eq→eq parent_dir cur_dir h = absurd cc
component_eq→eq parent_dir (normal t) h = absurd cc
component_eq→eq (normal s) root_dir h = absurd cc
component_eq→eq (normal s) cur_dir h = absurd cc
component_eq→eq (normal s) parent_dir h = absurd cc

abbrev pub ups : List Component → List Component
ups [] = []
ups (f ∷ fs) = parent_dir ∷ ups fs

-- As many steps up as there were names down lead back.
pub follow-ups :
    (stack fs : List Component) → Fit fs → NoParents fs → follow (follow stack fs) (ups fs) ≡ stack
unfolding follow
follow-ups stack [] fit names = refl
follow-ups stack (root_dir ∷ fs) fit names = absurd fit
follow-ups stack (cur_dir ∷ fs) fit names = absurd fit
follow-ups stack (parent_dir ∷ fs) fit names = absurd names
follow-ups stack (normal name ∷ fs) (plain, fit) names =
    ap (λ (l : List Component). follow (follow (normal name ∷ stack) fs) l) (ups_last fs)
    ∙ (follow-append (follow (normal name ∷ stack) fs) (ups fs) (parent_dir ∷ [])
        ∙ ap (λ (l : List Component). up l) (follow-ups (normal name ∷ stack) fs fit names))
  where
    ups_last : (gs : List Component) → parent_dir ∷ ups gs ≡ ups gs ++ (parent_dir ∷ [])
    ups_last [] = refl
    ups_last (g ∷ gs) = ap (λ (l : List Component). parent_dir ∷ l) (ups_last gs)

pub Fit-suffix : (cs ds : List Component) → Fit (cs ++ ds) → Fit ds
Fit-suffix [] ds h = h
Fit-suffix (root_dir ∷ cs) ds h = absurd h
Fit-suffix (cur_dir ∷ cs) ds h = absurd h
Fit-suffix (parent_dir ∷ cs) ds h = Fit-suffix cs ds h
Fit-suffix (normal name ∷ cs) ds (plain, h) = Fit-suffix cs ds h

pub NoParents-suffix : (cs ds : List Component) → NoParents (cs ++ ds) → NoParents ds
NoParents-suffix [] ds h = h
NoParents-suffix (root_dir ∷ cs) ds h = NoParents-suffix cs ds h
NoParents-suffix (cur_dir ∷ cs) ds h = NoParents-suffix cs ds h
NoParents-suffix (parent_dir ∷ cs) ds h = absurd h
NoParents-suffix (normal name ∷ cs) ds h = NoParents-suffix cs ds h
