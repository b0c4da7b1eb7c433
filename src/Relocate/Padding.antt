-- ===== src/Relocate/Padding.antt =====
-- relocate.rs: what the pass over the NUL slots of a binary keeps.
use zapbrew.Base.{
  ℕ, zero, suc, ◌-◌, ◌≤◌, Text, Bool, true, false, ◌||◌, List, [], ◌∷◌, ◌++◌, length, length-append,
  ltb, split, join, join-split, ok, bind-eq-ok, ◌≡◌, refl, ap, sym, ◌∙◌, arith, inl, inr,
  Bool-cases,
}
use mathlib.Core.List.{append-nil}
use zapbrew.Relocate.Bytes.{zeros}
use zapbrew.Relocate.Scans.{replace_all-unchanged}
use zapbrew.Relocate.Replace.{Subs, replace_all, separator, pad_segments, nul_pad_span}

-- Segments with a NUL before each but the first.
abbrev pub flat : Bool → List Text → Text
flat first [] = []
flat first (s ∷ ss) = separator first ++ (s ++ flat false ss)

flat-join : (ss : List Text) → flat true ss ≡ join 0 ss
flat-join [] = refl
flat-join (s ∷ []) = append-nil s
flat-join (s ∷ t ∷ ss) = ap (λ (r : Text). s ++ (0 ∷ r)) (flat-join (t ∷ ss))

flat-split : (s : Text) → flat true (split 0 s) ≡ s
flat-split s = flat-join (split 0 s) ∙ join-split 0 s

pub length-zeros : (n : ℕ) → length (zeros n) ≡ n
unfolding zeros
length-zeros zero = refl
length-zeros (suc n) = omega (arith, length-zeros n)

-- What a round that ends well appends.
pad_segments-eq-ok :
    (subs : Subs) (path : Text) (first : Bool) (s : Text) (ss : List Text) (out : Text)
    (changed : Bool)
    → pad_segments subs path first (s ∷ ss) ≡ ok (out, changed)
    → (rest : Text) × (more : Bool) × (pad_segments subs path false ss ≡ ok (rest, more))
      × (length (replace_all s subs).0 ≤ length s)
      × (out
          ≡ separator first
            ++ ((replace_all s subs).0
                ++ (zeros (length s - length (replace_all s subs).0) ++ rest)))
      × (changed ≡ ((replace_all s subs).1 || more))
unfolding pad_segments
pad_segments-eq-ok subs path first s ss out changed h =
    elim (Bool-cases (ltb (length s) (length (replace_all s subs).0))) [
      | inl over ↦ absurd (ground arith)
      | inr fits ↦
          let ((rest, more), before, here) =
            bind-eq-ok (pad_segments subs path false ss) _ (out, changed) (rw fits at h) in
          (rest, more, before, ground arith, cc, cc)
    ]

length-pad_segments :
    (subs : Subs) (path : Text) (first : Bool) (ss : List Text) (out : Text) (changed : Bool)
    → pad_segments subs path first ss ≡ ok (out, changed)
    → length out ≡ length (flat first ss)
unfolding pad_segments
length-pad_segments subs path first [] out changed h = ground arith
length-pad_segments subs path first (s ∷ ss) out changed h =
    let (rest, more, before, fits, same, _) =
      pad_segments-eq-ok subs path first s ss out changed h in
    let e1 =
      length-append (separator first)
        ((replace_all s subs).0 ++ (zeros (length s - length (replace_all s subs).0) ++ rest)) in
    let e2 =
      length-append (replace_all s subs).0
        (zeros (length s - length (replace_all s subs).0) ++ rest) in
    let e3 = length-append (zeros (length s - length (replace_all s subs).0)) rest in
    let e4 = length-append (separator first) (s ++ flat false ss) in
    let e5 = length-append s (flat false ss) in
    rw same (
      omega (
        arith,
        length-zeros (length s - length (replace_all s subs).0),
        length-pad_segments subs path false ss rest more before,
      ))

pub or_false : (a b : Bool) → (a || b) ≡ false → (a ≡ false) × (b ≡ false)
or_false true b h = cc
or_false false b h = (refl, h)

pad_segments_kept :
    (subs : Subs) (path : Text) (first : Bool) (ss : List Text) (out : Text)
    → pad_segments subs path first ss ≡ ok (out, false)
    → out ≡ flat first ss
unfolding pad_segments zeros
pad_segments_kept subs path first [] out h = cc
pad_segments_kept subs path first (s ∷ ss) out h =
    let (rest, more, before, fits, same, quiet) =
      pad_segments-eq-ok subs path first s ss out false h in
    let (here, later) = or_false (replace_all s subs).1 more (sym quiet) in
    let whole : (replace_all s subs).0 ≡ s = (replace_all-unchanged s subs).1 here in
    let none_left : length s - length s ≡ 0 = omega arith in
    let behind : rest ≡ flat false ss =
      pad_segments_kept subs path false ss rest (rw later at before) in
    same ∙ rw (whole, none_left, behind) refl

-- A span keeps its length, and if nothing is reported to have changed, its bytes.
pub length-nul_pad_span :
    (span : Text) (subs : Subs) (path : Text) (out : Text) (changed : Bool)
    → nul_pad_span span subs path ≡ ok (out, changed)
    → length out ≡ length span
unfolding nul_pad_span
length-nul_pad_span span subs path out changed h =
    length-pad_segments subs path true (split 0 span) out changed h
    ∙ ap (λ (r : Text). length r) (flat-split span)

pub nul_pad_span_kept :
    (span : Text) (subs : Subs) (path : Text) (out : Text)
    → nul_pad_span span subs path ≡ ok (out, false)
    → out ≡ span
unfolding nul_pad_span
nul_pad_span_kept span subs path out h =
    pad_segments_kept subs path true (split 0 span) out h ∙ flat-split span
