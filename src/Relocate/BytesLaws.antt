-- ===== src/Relocate/BytesLaws.antt =====
-- What a write changes, and what a read finds behind it.
use zapbrew.Base.{
  ℕ, zero, suc, ◌+◌, ◌-◌, ◌/◌, ◌^◌, ◌<◌, ◌≤◌, Text, Bool, true, false, ◌&&◌, [], ◌∷◌, none, some,
  if◌then◌else◌, length, length-append, leb, ltb, lt→ltb, slice, take, drop, ok, ◌≡◌, refl, ap, sym,
  ◌∙◌, arith, ◌⊎◌, inl, inr,
}
use mathlib.Core.List.{reverse, reverse-append, reverse-reverse}
use native.Mathlib.Nat.{pow-suc}
use zapbrew.Relocate.Bytes.{
  u64_mod, checked_add, get_range, le_bytes, to_bytes, from_le, from_bytes, rd_uint, over_head,
  overwrite, write_bytes, write_uint,
}

length-over_head : (bs buf : Text) → length (over_head bs buf) ≡ length buf
unfolding over_head
length-over_head [] buf = refl
length-over_head (b ∷ bs) [] = refl
length-over_head (b ∷ bs) (c ∷ buf) = omega (arith, length-over_head bs buf)

pub length-overwrite : (buf : Text) (o : ℕ) (bs : Text) → length (overwrite buf o bs) ≡ length buf
unfolding overwrite
length-overwrite buf zero bs = length-over_head bs buf
length-overwrite [] (suc o) bs = refl
length-overwrite (c ∷ buf) (suc o) bs = omega (arith, length-overwrite buf o bs)

take-over_head : (bs buf : Text) → length bs ≤ length buf → take (length bs) (over_head bs buf) ≡ bs
unfolding over_head
take-over_head [] buf h = refl
take-over_head (b ∷ bs) [] h = absurd (omega arith)
take-over_head (b ∷ bs) (c ∷ buf) h = ap (λ (r : Text). b ∷ r) (take-over_head bs buf (omega arith))

-- What was written stands there.
pub read_back :
    (buf : Text) (o : ℕ) (bs : Text)
    → o + length bs ≤ length buf
    → take (length bs) (drop o (overwrite buf o bs)) ≡ bs
unfolding overwrite
read_back buf zero bs h = take-over_head bs buf (omega arith)
read_back [] (suc o) bs h = absurd (omega arith)
read_back (c ∷ buf) (suc o) bs h = read_back buf o bs (omega arith)

drop-over_head :
    (bs buf : Text) (m : ℕ) → drop (length bs + m) (over_head bs buf) ≡ drop (length bs + m) buf
unfolding over_head
drop-over_head [] buf m = refl
drop-over_head (b ∷ bs) [] m =
    let e : suc (length bs) + m ≡ suc (length bs + m) = omega arith in rw e refl
drop-over_head (b ∷ bs) (c ∷ buf) m =
    let e : suc (length bs) + m ≡ suc (length bs + m) = omega arith in
    rw e (drop-over_head bs buf m)

-- Behind the written bytes nothing changes.
drop-overwrite :
    (buf : Text) (o : ℕ) (bs : Text) (m : ℕ)
    → drop (o + length bs + m) (overwrite buf o bs) ≡ drop (o + length bs + m) buf
unfolding overwrite
drop-overwrite buf zero bs m =
    let e : 0 + length bs + m ≡ length bs + m = omega arith in rw e (drop-over_head bs buf m)
drop-overwrite [] (suc o) bs m = refl
drop-overwrite (c ∷ buf) (suc o) bs m =
    let e : suc o + length bs + m ≡ suc (o + length bs + m) = omega arith in
    rw e (drop-overwrite buf o bs m)

-- Before them nothing changes either.
take-overwrite :
    (buf : Text) (o : ℕ) (bs : Text) (i n : ℕ)
    → i + n ≤ o
    → take n (drop i (overwrite buf o bs)) ≡ take n (drop i buf)
unfolding overwrite
take-overwrite buf o bs i zero h = refl
take-overwrite buf zero bs i (suc n) h = absurd (omega arith)
take-overwrite [] (suc o) bs i (suc n) h = refl
take-overwrite (c ∷ buf) (suc o) bs zero (suc n) h =
    ap (λ (r : Text). c ∷ r) (take-overwrite buf o bs 0 n (omega arith))
take-overwrite (c ∷ buf) (suc o) bs (suc i) (suc n) h =
    take-overwrite buf o bs i (suc n) (omega arith)

abbrev pub Apart : ℕ → ℕ → ℕ → ℕ → Type 0
Apart i n o m = (i + n ≤ o) ⊎ (o + m ≤ i)

pub read-Apart :
    (buf : Text) (o : ℕ) (bs : Text) (i n : ℕ)
    → Apart i n o (length bs)
    → take n (drop i (overwrite buf o bs)) ≡ take n (drop i buf)
read-Apart buf o bs i n (inl h) = take-overwrite buf o bs i n h
read-Apart buf o bs i n (inr h) =
    let e : i ≡ o + length bs + (i - (o + length bs)) = omega arith in
    let d : drop i (overwrite buf o bs) ≡ drop i buf =
      rw e (drop-overwrite buf o bs (i - (o + length bs))) in
    ap (λ (r : Text). take n r) d

length-le_bytes : (k v : ℕ) → length (le_bytes k v) ≡ k
unfolding le_bytes
length-le_bytes zero v = refl
length-le_bytes (suc k) v = omega (arith, length-le_bytes k (v / 256))

length-reverse : (xs : Text) → length (reverse xs) ≡ length xs
length-reverse [] = refl
length-reverse (x ∷ xs) =
    ap (λ (r : Text). length r) (reverse-append (x ∷ []) xs)
    ∙ omega (arith, length-append (reverse xs) (x ∷ []), length-reverse xs)

pub length-to_bytes : (little : Bool) (k v : ℕ) → length (to_bytes little k v) ≡ k
unfolding to_bytes
length-to_bytes true k v = length-le_bytes k v
length-to_bytes false k v = length-reverse (le_bytes k v) ∙ length-le_bytes k v

from_le-le_bytes : (k v : ℕ) → v < 256 ^ k → from_le (le_bytes k v) ≡ v
unfolding from_le le_bytes
from_le-le_bytes zero v h = omega arith
from_le-le_bytes (suc k) v h =
    let unfolded = pow-suc 256 k in
    let small : v / 256 < 256 ^ k = omega arith in omega (arith, from_le-le_bytes k (v / 256) small)

pub from_bytes-to_bytes :
    (little : Bool) (k v : ℕ) → v < 256 ^ k → from_bytes little (to_bytes little k v) ≡ v
unfolding from_bytes to_bytes
from_bytes-to_bytes true k v h = from_le-le_bytes k v h
from_bytes-to_bytes false k v h = rw (reverse-reverse (le_bytes k v)) (from_le-le_bytes k v h)

-- A read in closed form.
pub rd_uint-eq-if :
    (k : ℕ) (buf : Text) (o : ℕ) (little : Bool)
    → rd_uint k buf o little ≡ (
        if ltb (o + k) u64_mod && leb (o + k) (length buf)
        then some (from_bytes little (take k (drop o buf)))
        else none)
unfolding rd_uint get_range slice checked_add
rd_uint-eq-if k buf o little =
    let width : o + k - o ≡ k = omega arith in
    let piece : take (o + k - o) (drop o buf) ≡ take k (drop o buf) =
      ap (λ (n : ℕ). take n (drop o buf)) width in
    ground (arith, piece)

-- A successful write of a number is an overwriting within the buffer.
pub write_uint-eq-ok :
    (k : ℕ) (buf : Text) (o : ℕ) (little : Bool) (v : ℕ) (buf' : Text)
    → write_uint k buf o little v ≡ ok buf'
    → (buf' ≡ overwrite buf o (to_bytes little k v)) × (o + k ≤ length buf) × (o + k < u64_mod)
unfolding write_uint write_bytes checked_add
write_uint-eq-ok k buf o little v buf' e = let width = length-to_bytes little k v in ground arith

rd_uint-at :
    (k : ℕ) (buf : Text) (o : ℕ) (little : Bool)
    → o + k ≤ length buf
    → o + k < u64_mod
    → rd_uint k buf o little ≡ some (from_bytes little (take k (drop o buf)))
rd_uint-at k buf o little h small =
    let e : ltb (o + k) u64_mod ≡ true = lt→ltb (o + k) u64_mod small in
    let within : leb (o + k) (length buf) ≡ true = ground arith in
    rd_uint-eq-if k buf o little ∙ rw (e, within) refl

read_written :
    (k : ℕ) (buf : Text) (o : ℕ) (little : Bool) (v : ℕ)
    → o + k ≤ length buf
    → take k (drop o (overwrite buf o (to_bytes little k v))) ≡ to_bytes little k v
read_written k buf o little v h =
    let width = length-to_bytes little k v in
    ap (λ (n : ℕ). take n (drop o (overwrite buf o (to_bytes little k v)))) (sym width)
    ∙ read_back buf o (to_bytes little k v) (omega arith)

-- A number below 256 ^ k that was written into `k` bytes without an error is read back from them,
-- in the same byte order.
pub rd_uint-write_uint :
    (k : ℕ) (buf : Text) (o : ℕ) (little : Bool) (v : ℕ) (buf' : Text)
    → v < 256 ^ k
    → write_uint k buf o little v ≡ ok buf'
    → rd_uint k buf' o little ≡ some v
rd_uint-write_uint k buf o little v buf' small e =
    let (same, within, below) = write_uint-eq-ok k buf o little v buf' e in
    let width = length-to_bytes little k v in
    let longs = length-overwrite buf o (to_bytes little k v) in
    let back : take k (drop o (overwrite buf o (to_bytes little k v))) ≡ to_bytes little k v =
      read_written k buf o little v within in
    rw same (
      rd_uint-at k (overwrite buf o (to_bytes little k v)) o little (omega arith) below
      ∙ ap (λ (bs : Text). some (from_bytes little bs)) back
      ∙ ap (λ (n : ℕ). some n) (from_bytes-to_bytes little k v small))

-- A write leaves the numbers apart from it as they were, and the length too.
pub rd_uint-write_uint-Apart :
    (k : ℕ) (buf : Text) (o : ℕ) (little : Bool) (v : ℕ) (buf' : Text) (j i : ℕ) (order : Bool)
    → write_uint k buf o little v ≡ ok buf'
    → Apart i j o k
    → (rd_uint j buf' i order ≡ rd_uint j buf i order) × (length buf' ≡ length buf)
rd_uint-write_uint-Apart k buf o little v buf' j i order e apart =
    let (same, within, below) = write_uint-eq-ok k buf o little v buf' e in
    let longs = length-overwrite buf o (to_bytes little k v) in
    let width = length-to_bytes little k v in
    let kept = read-Apart buf o (to_bytes little k v) i j (rw width apart) in
    rw same (
      rd_uint-eq-if j (overwrite buf o (to_bytes little k v)) i order
          ∙ rw (longs, kept) (sym (rd_uint-eq-if j buf i order)),
      longs,
    )
