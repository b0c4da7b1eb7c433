-- ===== src/Relocate/RelativeLaws.antt =====
-- relocate.rs: following a relative path from where it starts leads to where it is to lead.
use zapbrew.Base.{
  Text, bytes, text_eq, true, false, List, [], ◌∷◌, ◌++◌, some, if◌then◌else◌, is_empty,
  starts_with, split, Component, root_dir, cur_dir, parent_dir, normal, components, parts,
  component_eq, ◌≡◌, refl, ap, sym, ◌∙◌, ◌⊎◌, inl, inr, Bool-cases,
}
use mathlib.Core.List.{append_assoc, append-nil}
use mathlib.Core.Path.{subst}
use zapbrew.Relocate.Relative.{path_push, strip_common, climb, descend, relative_path_from}
use zapbrew.Relocate.PushedPaths.{
  Plain, component_of, Built, Built-first, Built-push, Built-components, if_false,
}
use zapbrew.Relocate.FollowedPaths.{
  follow, follow-append, Fit, NoParents, Frees-split, Fit-parts, component_eq→eq, ups, follow-ups,
  Fit-suffix, NoParents-suffix,
}

strip_common-append :
    (fs ts : List Component)
    → (cs : List Component) × (fs ≡ cs ++ (strip_common fs ts).0)
      × (ts ≡ cs ++ (strip_common fs ts).1)
unfolding strip_common
strip_common-append [] ts = ([], refl, refl)
strip_common-append (f ∷ fs) [] = ([], refl, refl)
strip_common-append (f ∷ fs) (t ∷ ts) = elim (Bool-cases (component_eq f t)) [
  | inl alike ↦
      let (cs, e1, e2) = strip_common-append fs ts in
      let same = component_eq→eq f t alike in
      (
        f ∷ cs,
        rw (alike, strip_common) (ap (λ (l : List Component). f ∷ l) e1),
        rw (alike, strip_common)
            (ap (λ (c : Component). c ∷ ts) (sym same) ∙ ap (λ (l : List Component). f ∷ l) e2),
      )
  | inr apart ↦ ([], rw (apart, strip_common) refl, rw (apart, strip_common) refl)
]

-- A path that is being pushed, from the empty one on, with its components.
abbrev Pushed : Text → List Component → Type 0
Pushed r cs = ((r ≡ []) × (cs ≡ [])) ⊎ Built r cs

Pushed-push :
    (r p : Text) (cs : List Component)
    → Pushed r cs
    → Plain p
    → Pushed (path_push r p) (cs ++ (component_of p ∷ []))
unfolding path_push starts_with
Pushed-push r [] cs h plain = absurd plain
Pushed-push r (c ∷ p) cs (inl (no_text, no_components)) ((free, frees), dot) =
    inr (rw (no_text, no_components, path_push, free) (Built-first (c ∷ p) ((free, frees), dot)))
Pushed-push r (c ∷ p) cs (inr built) plain = inr (Built-push r (c ∷ p) cs built plain)

dots-Plain : Plain (bytes "..")
unfolding text_eq
dots-Plain = ((refl, (refl, tt)), refl)

Pushed-climb :
    (r : Text) (cs fs : List Component) → Pushed r cs → Pushed (climb r fs) (cs ++ ups fs)
unfolding climb text_eq
Pushed-climb r cs [] h = subst (λ (l : List Component). Pushed r l) (sym (append-nil cs)) h
Pushed-climb r cs (f ∷ fs) h =
    subst (λ (l : List Component). Pushed (climb (path_push r (bytes "..")) fs) l)
      (append_assoc cs (parent_dir ∷ []) (ups fs))
      (Pushed-climb (path_push r (bytes "..")) (cs ++ (parent_dir ∷ [])) fs
        (Pushed-push r (bytes "..") cs h dots-Plain))

Pushed-descend :
    (r : Text) (cs ts : List Component) → Fit ts → Pushed r cs → Pushed (descend r ts) (cs ++ ts)
unfolding descend text_eq
Pushed-descend r cs [] fit h = subst (λ (l : List Component). Pushed r l) (sym (append-nil cs)) h
Pushed-descend r cs (root_dir ∷ ts) fit h = absurd fit
Pushed-descend r cs (cur_dir ∷ ts) fit h = absurd fit
Pushed-descend r cs (parent_dir ∷ ts) fit h =
    subst (λ (l : List Component). Pushed (descend (path_push r (bytes "..")) ts) l)
      (append_assoc cs (parent_dir ∷ []) ts)
      (Pushed-descend (path_push r (bytes "..")) (cs ++ (parent_dir ∷ [])) ts fit
        (Pushed-push r (bytes "..") cs h dots-Plain))
Pushed-descend r cs (normal name ∷ ts) ((plain, named), fit) h =
    let pushed : Pushed (path_push r name) (cs ++ (normal name ∷ [])) =
      subst (λ (c : Component). Pushed (path_push r name) (cs ++ (c ∷ []))) (rw named refl)
        (Pushed-push r name cs h plain) in
    subst (λ (l : List Component). Pushed (descend (path_push r name) ts) l)
      (append_assoc cs (normal name ∷ []) ts)
      (Pushed-descend (path_push r name) (cs ++ (normal name ∷ [])) ts fit pushed)

-- The components of an absolute path: the root, and names or steps up.
absolute_parts :
    (s : Text)
    → starts_with b'/' s ≡ true
    → (cs : List Component) × (components s ≡ root_dir ∷ cs) × Fit cs
unfolding components
absolute_parts s h =
    (parts (split b'/' s), rw (h, components) refl, Fit-parts (split b'/' s) (Frees-split s))

abbrev relative_result : Text → Text
relative_result result = if is_empty result then path_push result (bytes ".") else result

-- A pushed path, with `.` for the empty one, is followed like its components.
Pushed-follow :
    (r : Text) (cs stack : List Component)
    → Pushed r cs
    → (starts_with b'/' (relative_result r) ≡ false)
      × (follow stack (components (relative_result r)) ≡ follow stack cs)
unfolding path_push starts_with components follow text_eq
Pushed-follow r cs stack (inl (no_text, no_components)) = rw (no_text, no_components) (refl, refl)
Pushed-follow r cs stack (inr built) =
    let start = built.0 in
    let some_bytes = built.2 in
    let whole : relative_result r ≡ r =
      if_false (is_empty r) (path_push r (bytes ".")) r some_bytes in
    (
      ap (λ (t : Text). starts_with b'/' t) whole ∙ start,
      ap (λ (t : Text). follow stack (components t)) whole
          ∙ ap (λ (l : List Component). follow stack l) (Built-components r cs built),
    )

-- Up from the one list to what both share, and down the other.
follow-strip_common :
    (fs ts : List Component)
    → Fit fs
    → NoParents fs
    → follow (follow [] (root_dir ∷ fs)) (ups (strip_common fs ts).0 ++ (strip_common fs ts).1)
      ≡ follow [] (root_dir ∷ ts)
unfolding follow
follow-strip_common fs ts fit names =
    let (cs, e1, e2) = strip_common-append fs ts in
    let above = (strip_common fs ts).0 in
    let below = (strip_common fs ts).1 in
    let stack = follow (root_dir ∷ []) cs in
    let back =
      follow-ups stack above (Fit-suffix cs above (subst (λ (l : List Component). Fit l) e1 fit))
        (NoParents-suffix cs above (subst (λ (l : List Component). NoParents l) e1 names)) in
    follow-append (follow (root_dir ∷ []) fs) (ups above) below
    ∙ (ap (λ (l : List Component). follow (follow l (ups above)) below)
          (ap (λ (l : List Component). follow (root_dir ∷ []) l) e1
            ∙ follow-append (root_dir ∷ []) cs above)
        ∙ (ap (λ (l : List Component). follow l below) back
            ∙ (sym (follow-append (root_dir ∷ []) cs below)
                ∙ ap (λ (l : List Component). follow (root_dir ∷ []) l) (sym e2))))

relative_path_from-eq :
    (from to : Text) (fs ts : List Component)
    → components from ≡ root_dir ∷ fs
    → components to ≡ root_dir ∷ ts
    → relative_path_from from to
      ≡ some (relative_result (descend (climb [] (strip_common fs ts).0) (strip_common fs ts).1))
unfolding relative_path_from strip_common component_eq
relative_path_from-eq from to fs ts e1 e2 = rw (e1, e2, relative_path_from) refl

-- Between two absolute paths, of which the first has no `..`, `relative_path_from` gives a relative
-- path, and following its components from where the first path leads, with `..` as a step up, leads
-- to where the second path leads.
pub relative_path_from-follow :
    (from to : Text)
    → starts_with b'/' from ≡ true
    → starts_with b'/' to ≡ true
    → NoParents (components from)
    → (rel : Text) × (relative_path_from from to ≡ some rel)
      × (starts_with b'/' rel ≡ false)
      × (follow (follow [] (components from)) (components rel) ≡ follow [] (components to))
relative_path_from-follow from to absolute absolute' named =
    let (fs, e1, fit) = absolute_parts from absolute in
    let (ts, e2, fit') = absolute_parts to absolute' in
    let names : NoParents fs = subst (λ (l : List Component). NoParents l) e1 named in
    let above = (strip_common fs ts).0 in
    let below = (strip_common fs ts).1 in
    let (cs, s1, s2) = strip_common-append fs ts in
    let pushed =
      Pushed-descend (climb [] above) (ups above) below
        (Fit-suffix cs below (subst (λ (l : List Component). Fit l) s2 fit'))
        (Pushed-climb [] [] above (inl (refl, refl))) in
    let (start, reached) =
      Pushed-follow (descend (climb [] above) below) (ups above ++ below)
        (follow [] (components from)) pushed in
    (
      relative_result (descend (climb [] above) below),
      relative_path_from-eq from to fs ts e1 e2,
      start,
      reached
          ∙ (ap (λ (l : List Component). follow (follow [] l) (ups above ++ below)) e1
              ∙ (follow-strip_common fs ts fit names
                  ∙ ap (λ (l : List Component). follow [] l) (sym e2))),
    )
