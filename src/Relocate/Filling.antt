-- ===== src/Relocate/Filling.antt =====
-- relocate.rs: what `zero_range` and `write_bytes` make of a slot.
use zapbrew.Base.{
  ℕ, zero, suc, ◌+◌, ◌-◌, ◌≤◌, Text, [], ◌∷◌, ◌++◌, length, length-append, take, drop, take-append,
  drop-append_more, ok, ◌≡◌, refl, ap, sym, ◌∙◌, arith,
}
use mathlib.Core.List.{append_assoc}
use native.Mathlib.Nat.{zero-add, suc-add}
use zapbrew.Relocate.Bytes.{checked_add, over_head, overwrite, write_bytes, zeros, zero_range}
use zapbrew.Relocate.Pieces.{length-take}
use zapbrew.Relocate.Padding.{length-zeros}

over_head-append :
    (bs buf : Text) → length bs ≤ length buf → over_head bs buf ≡ bs ++ drop (length bs) buf
unfolding over_head
over_head-append [] buf h = refl
over_head-append (b ∷ bs) [] h = absurd (omega arith)
over_head-append (b ∷ bs) (c ∷ buf) h =
    ap (λ (r : Text). b ∷ r) (over_head-append bs buf (omega arith))

-- What stands before, the bytes, and what stands behind.
pub overwrite-append :
    (buf : Text) (o : ℕ) (bs : Text)
    → o + length bs ≤ length buf
    → overwrite buf o bs ≡ take o buf ++ (bs ++ drop (o + length bs) buf)
unfolding overwrite
overwrite-append buf zero bs h = over_head-append bs buf (omega arith) ∙ rw zero-add refl
overwrite-append [] (suc o) bs h = let empty : length bs ≡ 0 = omega arith in absurd (omega arith)
overwrite-append (c ∷ buf) (suc o) bs h =
    rw suc-add (ap (λ (r : Text). c ∷ r) (overwrite-append buf o bs (omega arith)))

pub write_bytes-eq-ok :
    (buf : Text) (o : ℕ) (bs out : Text)
    → write_bytes buf o bs ≡ ok out
    → (o + length bs ≤ length buf) × (out ≡ overwrite buf o bs)
unfolding write_bytes checked_add
write_bytes-eq-ok buf o bs out h = ground arith

pub zero_range-eq-ok :
    (buf : Text) (o len : ℕ) (out : Text)
    → zero_range buf o len ≡ ok out
    → (o + len ≤ length buf) × (out ≡ overwrite buf o (zeros len))
unfolding zero_range checked_add
zero_range-eq-ok buf o len out h = ground arith

drop-zeros : (n m : ℕ) → n ≤ m → drop n (zeros m) ≡ zeros (m - n)
unfolding zeros
drop-zeros zero m h = let same : m - 0 ≡ m = omega arith in rw same refl
drop-zeros (suc n) zero h = absurd (omega arith)
drop-zeros (suc n) (suc m) h =
    let same : suc m - suc n ≡ m - n = omega arith in rw same (drop-zeros n m (omega arith))

drop-append_left : (n : ℕ) (xs ys : Text) → n ≤ length xs → drop n (xs ++ ys) ≡ drop n xs ++ ys
drop-append_left zero xs ys h = refl
drop-append_left (suc n) [] ys h = absurd (omega arith)
drop-append_left (suc n) (x ∷ xs) ys h = drop-append_left n xs ys (omega arith)

-- Writing over a cleared slot that stands between two texts.
overwrite_cleared :
    (before behind bs : Text) (capacity : ℕ)
    → length bs ≤ capacity
    → overwrite (before ++ (zeros capacity ++ behind)) (length before) bs
      ≡ before ++ (bs ++ (zeros (capacity - length bs) ++ behind))
overwrite_cleared before behind bs capacity fits =
    let longs = length-append before (zeros capacity ++ behind) in
    let longs' = length-append (zeros capacity) behind in
    let width = length-zeros capacity in
    let tail : drop (length before + length bs) (before ++ (zeros capacity ++ behind))
        ≡ zeros (capacity - length bs) ++ behind =
      drop-append_more (length bs) before (zeros capacity ++ behind)
      ∙ (drop-append_left (length bs) (zeros capacity) behind (omega arith)
          ∙ ap (λ (r : Text). r ++ behind) (drop-zeros (length bs) capacity fits)) in
    overwrite-append (before ++ (zeros capacity ++ behind)) (length before) bs (omega arith)
    ∙ rw (take-append before (zeros capacity ++ behind), tail) refl

-- The slot as the code leaves it: the bytes, then zeros up to its capacity.
abbrev pub padded_to : ℕ → Text → Text
padded_to capacity bs = bs ++ zeros (capacity - length bs)

pub length-padded_to :
    (capacity : ℕ) (bs : Text) → length bs ≤ capacity → length (padded_to capacity bs) ≡ capacity
length-padded_to capacity bs fits =
    omega
      (arith, length-append bs (zeros (capacity - length bs)), length-zeros (capacity - length bs))

-- A slot that is cleared and written holds the bytes with zeros behind them.
pub filled-eq :
    (buf : Text) (o capacity : ℕ) (bs cleared out : Text)
    → length bs ≤ capacity
    → zero_range buf o capacity ≡ ok cleared
    → write_bytes cleared o bs ≡ ok out
    → (o + capacity ≤ length buf) × (out ≡ overwrite buf o (padded_to capacity bs))
filled-eq buf o capacity bs cleared out fits h1 h2 =
    let (within, zeroed) = zero_range-eq-ok buf o capacity cleared h1 in
    let (within', written) = write_bytes-eq-ok cleared o bs out h2 in
    let width = length-zeros capacity in
    let wide = length-padded_to capacity bs fits in
    let start : length (take o buf) ≡ o = length-take o buf (omega arith) in
    let shape : cleared ≡ take o buf ++ (zeros capacity ++ drop (o + capacity) buf) =
      zeroed
      ∙ (overwrite-append buf o (zeros capacity) (omega arith)
          ∙ ap (λ (n : ℕ). take o buf ++ (zeros capacity ++ drop (o + n) buf)) width) in
    let place : overwrite cleared o bs
        ≡ overwrite (take o buf ++ (zeros capacity ++ drop (o + capacity) buf))
            (length (take o buf)) bs =
      rw (shape, start) refl in
    let whole : overwrite buf o (padded_to capacity bs)
        ≡ take o buf ++ (bs ++ (zeros (capacity - length bs) ++ drop (o + capacity) buf)) =
      overwrite-append buf o (padded_to capacity bs) (omega arith)
      ∙ rw (wide, append_assoc bs (zeros (capacity - length bs)) (drop (o + capacity) buf)) refl in
    (
      within,
      written
          ∙ (place
              ∙ (overwrite_cleared (take o buf) (drop (o + capacity) buf) bs capacity fits
                  ∙ sym whole)),
    )
