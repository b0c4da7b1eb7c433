-- ===== src/Relocate/Segments.antt =====
-- relocate.rs: which segments a rewritten runpath has.
use zapbrew.Base.{
  Text, bytes, text_eq, text_eq_iff, Bool, true, false, List, [], ◌∷◌, ◌++◌, if◌then◌else◌, any,
  split, Occurs, Occurs-append_left, Occurs-append_right, Occurs-append_cases, Distinct,
  Distinct-snoc, ◌≡◌, ◌↔◌, refl, ap, sym, ◌∙◌, ◌⊎◌, inl, inr, Bool-cases,
}
use zapbrew.Relocate.GccLib.{Stays, Renamed, rewrite_gcc_lib_iff, kept_segment_iff}
use zapbrew.Relocate.Runpath.{
  rewrite_gcc_lib, kept_segment, push_new, gather_segments, runpath_segments,
}

-- The test on a list of texts decides whether the text stands in it.
any_iff : (s : Text) (ss : List Text) → (any (text_eq s) ss ≡ true) ↔ Occurs s ss
any_iff s [] = (λ h. cc, λ h. absurd h)
any_iff s (t ∷ ss) = elim (Bool-cases (text_eq s t)) [
  | inl same ↦ (λ h. inl ((text_eq_iff s t).0 same), λ h. rw same refl)
  | inr other ↦ (
    λ h. inr ((any_iff s ss).0 (rw other at h)),
    λ h. rw other (
        (any_iff s ss).1 (elim h [
          | inl equal ↦ let no : false ≡ true = sym other ∙ (text_eq_iff s t).1 equal in absurd cc
          | inr later ↦ later
        ])),
  )
]

-- A segment that is pushed stands in the list, with the old ones, and none stands there twice.
push_new-Distinct :
    (segments : List Text) (segment : Text)
    → Distinct segments
    → Distinct (push_new segments segment)
push_new-Distinct segments segment d = elim (Bool-cases (any (text_eq segment) segments)) [
  | inl there ↦ rw there d
  | inr missing ↦ rw missing (
      Distinct-snoc segments segment d
        λ h. let no : false ≡ true = sym missing ∙ (any_iff segment segments).1 h in absurd cc)
]

Occurs-push_new :
    (s segment : Text) (segments : List Text)
    → Occurs s (push_new segments segment) ↔ (Occurs s segments ⊎ (s ≡ segment))
Occurs-push_new s segment segments = elim (Bool-cases (any (text_eq segment) segments)) [
  | inl there ↦ rw there (
    λ h. inl h,
    λ h. elim h [ inl old ↦ old | inr same ↦ rw same ((any_iff segment segments).0 there) ],
  )
  | inr missing ↦ rw missing (
    λ h. elim (Occurs-append_cases s segments (segment ∷ []) h) [
      | inl old ↦ inl old
      | inr (inl same) ↦ inr same
      | inr (inr nowhere) ↦ absurd nowhere
    ],
    λ h. elim h [
      | inl old ↦ Occurs-append_left s segments (segment ∷ []) old
      | inr same ↦ Occurs-append_right s segments (segment ∷ []) (inl same)
    ],
  )
]

module _ (new_prefix cellar : Text) (is_gcc : Bool) where
  -- What a raw segment is kept as.
  abbrev shown : Text → Text
  shown raw = if is_gcc then raw else rewrite_gcc_lib raw

  -- A kept raw segment of the list is pushed as the text.
  abbrev Pushed : Text → List Text → Type 0
  Pushed s raws =
      (raw : Text) × Occurs raw raws × (kept_segment new_prefix cellar raw ≡ true) × (s ≡ shown raw)

  gather_segments-Distinct :
      (segments raws : List Text)
      → Distinct segments
      → Distinct (gather_segments new_prefix cellar is_gcc segments raws)
  unfolding gather_segments
  gather_segments-Distinct segments [] d = d
  gather_segments-Distinct segments (raw ∷ raws) d =
      elim (Bool-cases (kept_segment new_prefix cellar raw)) [
        | inl kept ↦
            rw (kept, gather_segments)
              (gather_segments-Distinct (push_new segments (shown raw)) raws
                (push_new-Distinct segments (shown raw) d))
        | inr left ↦ rw (left, gather_segments) (gather_segments-Distinct segments raws d)
      ]

  Occurs-gather_segments :
      (s : Text) (segments raws : List Text)
      → Occurs s (gather_segments new_prefix cellar is_gcc segments raws)
        ↔ (Occurs s segments ⊎ Pushed s raws)
  unfolding gather_segments
  Occurs-gather_segments s segments [] =
      (λ h. inl h, λ h. elim h [ inl old ↦ old | inr (raw, nowhere, kept, same) ↦ absurd nowhere ])
  Occurs-gather_segments s segments (raw ∷ raws) =
      elim (Bool-cases (kept_segment new_prefix cellar raw)) [
        | inl kept ↦
            let pushed = Occurs-push_new s (shown raw) segments in
            let later = Occurs-gather_segments s (push_new segments (shown raw)) raws in
            rw (kept, gather_segments)
              (
                λ h. elim (later.0 h) [
                  | inl old ↦ elim (pushed.0 old) [
                    | inl before ↦ inl before
                    | inr same ↦ inr (raw, inl refl, kept, same)
                  ]
                  | inr (r, there, k, same) ↦ inr (r, inr there, k, same)
                ],
                λ h. later.1 (elim h [
                  | inl before ↦ inl (pushed.1 (inl before))
                  | inr (r, inl equal, k, same) ↦
                      inl (pushed.1 (inr (same ∙ ap (λ (x : Text). shown x) equal)))
                  | inr (r, inr there, k, same) ↦ inr (r, there, k, same)
                ]),
              )
        | inr left ↦
            let later = Occurs-gather_segments s segments raws in
            rw (left, gather_segments)
              (
                λ h. elim (later.0 h) [
                  | inl before ↦ inl before
                  | inr (r, there, k, same) ↦ inr (r, inr there, k, same)
                ],
                λ h. later.1 (elim h [
                  | inl before ↦ inl before
                  | inr (r, inl equal, k, same) ↦
                      let no : false ≡ true =
                        sym left
                        ∙ (ap (λ (x : Text). kept_segment new_prefix cellar x) (sym equal) ∙ k) in
                      absurd cc
                  | inr (r, inr there, k, same) ↦ inr (r, there, k, same)
                ]),
              )
      ]

  -- A segment of the list stays, and the text is how it is spelled in the new runpath: as it was for
  -- gcc, and renamed otherwise.
  abbrev pub Shown : Text → List Text → Type 0
  Shown s raws =
      (raw : Text) × Occurs raw raws
      × Stays new_prefix cellar raw
      × (((is_gcc ≡ true) × (s ≡ raw)) ⊎ ((is_gcc ≡ false) × Renamed raw s))

  shown_iff :
      (s raw : Text)
      → (s ≡ shown raw) ↔ (((is_gcc ≡ true) × (s ≡ raw)) ⊎ ((is_gcc ≡ false) × Renamed raw s))
  shown_iff s raw = elim (Bool-cases is_gcc) [
    | inl gcc ↦ rw gcc (
      λ h. inl (refl, h),
      λ h. elim h [ inl (e, same) ↦ same | inr (never, renamed) ↦ absurd cc ],
    )
    | inr other ↦ rw other (
      λ h. inr (refl, (rewrite_gcc_lib_iff raw s).0 h),
      λ h. elim h [
        | inl (never, same) ↦ absurd cc
        | inr (e, renamed) ↦ (rewrite_gcc_lib_iff raw s).1 renamed
      ],
    )
  ]

  Pushed-Shown : (s : Text) (raws : List Text) → Pushed s raws ↔ Shown s raws
  Pushed-Shown s raws = (
    λ (raw, there, kept, same).
        (raw, there, (kept_segment_iff new_prefix cellar raw).0 kept, (shown_iff s raw).0 same),
    λ (raw, there, stays, spelled).
        (raw, there, (kept_segment_iff new_prefix cellar raw).1 stays, (shown_iff s raw).1 spelled),
  )

-- No text stands twice among the segments of a rewritten runpath, and the segments are exactly the
-- new prefix with `/lib` behind it and the segments of the old runpath that are not empty and lie
-- in the prefix or in the cellar or begin with `$ORIGIN`. These are unchanged for gcc; otherwise
-- `current` replaces a number in decimal digits that stands behind `/lib/gcc/` at the end.
pub runpath_segments-Distinct :
    (current new_prefix cellar : Text) (is_gcc : Bool)
    → Distinct (runpath_segments current new_prefix cellar is_gcc)
      × ((s : Text)
          → Occurs s (runpath_segments current new_prefix cellar is_gcc) ↔ (
              Shown new_prefix cellar is_gcc s (split b':' current)
              ⊎ (s ≡ new_prefix ++ bytes "/lib")))
unfolding runpath_segments
runpath_segments-Distinct current new_prefix cellar is_gcc =
    let raws = split b':' current in
    let spelled = λ (s : Text). Pushed-Shown new_prefix cellar is_gcc s raws in
    let gathered = gather_segments new_prefix cellar is_gcc [] raws in
    (
      push_new-Distinct gathered (new_prefix ++ bytes "/lib")
          (gather_segments-Distinct new_prefix cellar is_gcc [] raws tt),
      λ s.
          let pushed = Occurs-push_new s (new_prefix ++ bytes "/lib") gathered in
          let found = Occurs-gather_segments new_prefix cellar is_gcc s [] raws in
          (
            λ h. elim (pushed.0 h) [
              | inl old ↦ elim (found.0 old) [
                | inl nowhere ↦ absurd nowhere
                | inr kept ↦ inl ((spelled s).0 kept)
              ]
              | inr lib ↦ inr lib
            ],
            λ h. pushed.1 (elim h [
              | inl kept ↦ inl (found.1 (inr ((spelled s).1 kept)))
              | inr lib ↦ inr lib
            ]),
          ),
    )
