-- ===== src/Relocate/Protected.antt =====
-- relocate.rs: what `binary_nul_pad` keeps, the protected ranges above all.
use zapbrew.Base.{
  ℕ, ◌+◌, ◌-◌, ◌<◌, ◌≤◌, Text, Bool, false, ◌||◌, List, [], ◌∷◌, ◌++◌, length, length-append, ltb,
  ltb→lt, slice, drop, get_elem?, Result, ok, bind-eq-ok, ◌≡◌, ap, sym, ◌∙◌, arith, ◌⊎◌, inl, inr,
  Bool-cases,
}
use zapbrew.Relocate.Pieces.{
  length-slice, slice-drop, get_elem-slice, get_elem-append_left, get_elem-append_right,
  length-drop,
}
use zapbrew.Relocate.Padding.{length-nul_pad_span, nul_pad_span_kept, or_false}
use zapbrew.Relocate.Replace.{Subs, Range, PourError, nul_pad_span, pad_ranges}

module _ (content : Text) (subs : Subs) (path : Text) where
  -- The rounds of the loop over the ranges, with what each appends.
  pub data Padded : ℕ → List Range → Text → Bool → Type 0 where
    rest :
        {cursor : ℕ} {out : Text} {changed : Bool}
        → nul_pad_span (drop cursor content) subs path ≡ ok (out, changed)
        → Padded cursor [] out changed
    overlap :
        {cursor b e : ℕ} {rs : List Range} {out : Text} {changed : Bool}
        → b < cursor
        → cursor < e
        → Padded e rs out changed
        → Padded cursor ((b, e) ∷ rs) (slice content cursor e ++ out) changed
    behind :
        {cursor b e : ℕ} {rs : List Range} {out : Text} {changed : Bool}
        → b < cursor
        → e ≤ cursor
        → Padded cursor rs out changed
        → Padded cursor ((b, e) ∷ rs) out changed
    ahead :
        {cursor b e : ℕ} {rs : List Range} {padded out : Text} {changed more : Bool}
        → cursor ≤ b
        → nul_pad_span (slice content cursor b) subs path ≡ ok (padded, changed)
        → Padded e rs out more
        → Padded cursor ((b, e) ∷ rs) (padded ++ (slice content b e ++ out)) (changed || more)

  Padded-cast :
      {cursor : ℕ} {rs : List Range} {out out' : Text} {changed changed' : Bool}
      → ◌≡◌ {A = Result PourError (Text × Bool)} (ok (out', changed')) (ok (out, changed))
      → Padded cursor rs out' changed'
      → Padded cursor rs out changed
  Padded-cast {cursor} {rs} {out} {out'} {changed} {changed'} e p =
      let same : out ≡ out' = cc in let alike : changed ≡ changed' = cc in rw (same, alike) p

  pub pad_ranges-Padded :
      (cursor : ℕ) (rs : List Range) (out : Text) (changed : Bool)
      → pad_ranges content subs path cursor rs ≡ ok (out, changed)
      → Padded cursor rs out changed
  unfolding pad_ranges
  pad_ranges-Padded cursor [] out changed h = rest h
  pad_ranges-Padded cursor ((b, e) ∷ rs) out changed h = elim (Bool-cases (ltb b cursor)) [
    | inl before ↦ elim (Bool-cases (ltb cursor e)) [
      | inl longer ↦
          let ((out', more), later, here) =
            bind-eq-ok (pad_ranges content subs path e rs) _ (out, changed)
              (rw (before, longer) at h) in
          Padded-cast here (
            overlap (ltb→lt b cursor before) (ltb→lt cursor e longer)
              (pad_ranges-Padded e rs out' more later))
      | inr covered ↦
          behind (ltb→lt b cursor before) (ground arith)
            (pad_ranges-Padded cursor rs out changed (rw (before, covered) at h))
    ]
    | inr after ↦
        let ((padded, c1), first, h') =
          bind-eq-ok (nul_pad_span (slice content cursor b) subs path) _ (out, changed)
            (rw after at h) in
        let ((out', more), later, here) =
          bind-eq-ok (pad_ranges content subs path e rs) _ (out, changed) h' in
        Padded-cast here (ahead (ground arith) first (pad_ranges-Padded e rs out' more later))
  ]

  -- All ranges end within the content and do not end before they begin.
  abbrev pub Within : List Range → Type 0
  Within [] = Unit
  Within ((b, e) ∷ rs) = (b ≤ e) × (e ≤ length content) × Within rs

  pub length-Padded :
      {cursor : ℕ} {rs : List Range} {out : Text} {changed : Bool}
      → Padded cursor rs out changed
      → cursor ≤ length content
      → Within rs
      → cursor + length out ≡ length content
  length-Padded (rest {cursor} {out} h) fits within = omega (
    arith,
    length-nul_pad_span (drop cursor content) subs path out _ h,
    length-drop cursor content,
  )
  length-Padded (overlap {cursor} {b} {e} {rs} {out} bc ce p) fits (be, el, within) = omega (
    arith,
    length-Padded p el within,
    length-append (slice content cursor e) out,
    length-slice content cursor e (omega arith) el,
  )
  length-Padded (behind bc ec p) fits (be, el, within) = length-Padded p fits within
  length-Padded (ahead {cursor} {b} {e} {rs} {padded} {out} cb h p) fits (be, el, within) =
      let e1 = length-append padded (slice content b e ++ out) in
      let e2 = length-append (slice content b e) out in
      let e3 = length-slice content b e be el in
      let e4 = length-slice content cursor b cb (omega arith) in
      omega (
        arith,
        length-Padded p el within,
        length-nul_pad_span (slice content cursor b) subs path padded _ h,
      )

  -- Nothing is reported to have changed: nothing has.
  pub Padded-drop :
      {cursor : ℕ} {rs : List Range} {out : Text} {changed : Bool}
      → Padded cursor rs out changed
      → Within rs
      → changed ≡ false
      → out ≡ drop cursor content
  Padded-drop (rest {cursor} {out} h) within quiet =
      nul_pad_span_kept (drop cursor content) subs path out (rw quiet at h)
  Padded-drop (overlap {cursor} {b} {e} {rs} {out} bc ce p) (be, el, within) quiet =
      ap (λ (r : Text). slice content cursor e ++ r) (Padded-drop p within quiet)
      ∙ slice-drop content cursor e (omega arith)
  Padded-drop (behind bc ec p) (be, el, within) quiet = Padded-drop p within quiet
  Padded-drop (ahead {cursor} {b} {e} {rs} {padded} {out} {changed} {more} cb h p) (be, el, within)
        quiet =
      let (q1, q2) = or_false changed more quiet in
      let first : padded ≡ slice content cursor b =
        nul_pad_span_kept (slice content cursor b) subs path padded (rw q1 at h) in
      rw (first, Padded-drop p within q2, slice-drop content b e be)
        (slice-drop content cursor b cb)

-- The index stands in one of the ranges.
abbrev pub Covered : ℕ → List Range → Type 0
Covered i [] = ⊥
Covered i ((b, e) ∷ rs) = ((b ≤ i) × (i < e)) ⊎ Covered i rs

-- No range of the list begins before a bound.
abbrev pub From : ℕ → List Range → Type 0
From n [] = Unit
From n ((b, e) ∷ rs) = (n ≤ b) × From n rs

abbrev pub Sorted : List Range → Type 0
Sorted [] = Unit
Sorted ((b, e) ∷ rs) = From b rs × Sorted rs

Covered-From : (n i : ℕ) (rs : List Range) → From n rs → Covered i rs → n ≤ i
Covered-From n i [] h c = absurd c
Covered-From n i ((b, e) ∷ rs) (h, hs) (inl (bi, ie)) = omega arith
Covered-From n i ((b, e) ∷ rs) (h, hs) (inr c) = Covered-From n i rs hs c

-- Behind a round for a range, an index that it does not hold stands in a later one.
later_range : (b e i : ℕ) (rs : List Range) → Covered i ((b, e) ∷ rs) → e ≤ i → Covered i rs
later_range b e i rs (inl (bi, ie)) h = absurd (omega arith)
later_range b e i rs (inr c) h = c

get_elem-slice_then :
    (content : Text) (b e i j : ℕ) (out : Text)
    → b ≤ e
    → e ≤ length content
    → i ≡ b + j
    → (e ≤ i → get_elem? out (i - e) ≡ get_elem? content i)
    → get_elem? (slice content b e ++ out) j ≡ get_elem? content i
get_elem-slice_then content b e i j out be el at later =
    let long = length-slice content b e be el in
    elim (Bool-cases (ltb i e)) [
      | inl inside ↦
          let lt = ltb→lt i e inside in
          get_elem-append_left (slice content b e) out j (omega arith)
          ∙ (get_elem-slice content b e j (omega arith)
              ∙ ap (λ (n : ℕ). get_elem? content n) (sym at))
      | inr beyond ↦
          let ge : e ≤ i = ground arith in
          let split : j ≡ length (slice content b e) + (i - e) = omega arith in
          ap (λ (n : ℕ). get_elem? (slice content b e ++ out) n) split
          ∙ (get_elem-append_right (slice content b e) out (i - e) ∙ later ge)
    ]

module _ (content : Text) (subs : Subs) (path : Text) where
  pub get_elem-Padded :
      {cursor : ℕ} {rs : List Range} {out : Text} {changed : Bool} (i j : ℕ)
      → Padded content subs path cursor rs out changed
      → Within content subs path rs
      → Sorted rs
      → i ≡ cursor + j
      → i < length content
      → Covered i rs
      → get_elem? out j ≡ get_elem? content i
  get_elem-Padded i j (rest h) within sorted at fits c = absurd c
  get_elem-Padded i j (overlap {cursor} {b} {e} {rs} {out} bc ce p) (be, el, within) (from, sorted)
        at fits c =
      get_elem-slice_then content cursor e i j out (omega arith) el at λ beyond.
        get_elem-Padded i (i - e) p within sorted (omega arith) fits (later_range b e i rs c beyond)
  get_elem-Padded i j (behind {cursor} {b} {e} bc ec p) (be, el, within) (from, sorted) at fits
        (inl (bi, ie)) =
      absurd (omega arith)
  get_elem-Padded i j (behind bc ec p) (be, el, within) (from, sorted) at fits (inr c) =
      get_elem-Padded i j p within sorted at fits c
  get_elem-Padded i j (ahead {cursor} {b} {e} {rs} {padded} {out} cb h p) (be, el, within)
        (from, sorted) at fits c =
      let bi : b ≤ i = Covered-From b i ((b, e) ∷ rs) (omega arith, from) c in
      let long = length-nul_pad_span (slice content cursor b) subs path padded _ h in
      let width = length-slice content cursor b cb (omega arith) in
      let split : j ≡ length padded + (i - b) = omega arith in
      ap (λ (n : ℕ). get_elem? (padded ++ (slice content b e ++ out)) n) split
      ∙ (get_elem-append_right padded (slice content b e ++ out) (i - b)
          ∙ get_elem-slice_then content b e i (i - b) out be el (omega arith) λ beyond.
            get_elem-Padded i (i - e) p within sorted (omega arith) fits
              (later_range b e i rs c beyond))
