-- ===== src/Relocate/Slots.antt =====
-- relocate.rs: the laws of `binary_nul_pad`, over the ranges as it prepares them.
use zapbrew.Base.{
  ℕ, ◌<◌, ◌≤◌, min, Text, Bool, true, false, List, [], ◌∷◌, map, keep, length, ltb, lt→ltb,
  get_elem?, ok, ◌≡◌, arith, inl, inr, Bool-cases, Occurs,
}
use zapbrew.Relocate.Protected.{
  pad_ranges-Padded, Within, length-Padded, Padded-drop, Covered, From, Sorted, get_elem-Padded,
}
use zapbrew.Relocate.Replace.{
  Subs, Range, clamp, range_le, insert_range, sort_ranges, binary_nul_pad,
}

Covered-insert_range :
    (i b e : ℕ) (rs : List Range) → Covered i ((b, e) ∷ rs) → Covered i (insert_range (b, e) rs)
unfolding insert_range
Covered-insert_range i b e [] h = h
Covered-insert_range i b e ((c, d) ∷ rs) h = elim (Bool-cases (range_le (b, e) (c, d))) [
  | inl le ↦ rw le h
  | inr gt ↦ rw gt (elim h [
    | inl here ↦ inr (Covered-insert_range i b e rs (inl here))
    | inr (inl next) ↦ inl next
    | inr (inr later) ↦ inr (Covered-insert_range i b e rs (inr later))
  ])
]

From-insert_range :
    (n b e : ℕ) (rs : List Range) → n ≤ b → From n rs → From n (insert_range (b, e) rs)
unfolding insert_range
From-insert_range n b e [] h hs = (h, tt)
From-insert_range n b e ((c, d) ∷ rs) h (k, hs) = elim (Bool-cases (range_le (b, e) (c, d))) [
  | inl le ↦ rw le (h, (k, hs))
  | inr gt ↦ rw gt (k, From-insert_range n b e rs h hs)
]

From-lower : (m n : ℕ) (rs : List Range) → m ≤ n → From n rs → From m rs
From-lower m n [] h hs = tt
From-lower m n ((c, d) ∷ rs) h (k, hs) = (omega arith, From-lower m n rs h hs)

Sorted-insert_range : (b e : ℕ) (rs : List Range) → Sorted rs → Sorted (insert_range (b, e) rs)
unfolding insert_range
Sorted-insert_range b e [] h = (tt, tt)
Sorted-insert_range b e ((c, d) ∷ rs) (k, hs) = elim (Bool-cases (range_le (b, e) (c, d))) [
  | inl le ↦ let bc : b ≤ c = ground arith in rw le ((bc, From-lower b c rs bc k), (k, hs))
  | inr gt ↦
      let cb : c ≤ b = ground arith in
      rw gt (From-insert_range c b e rs cb k, Sorted-insert_range b e rs hs)
]

Sorted-sort_ranges : (rs : List Range) → Sorted (sort_ranges rs)
unfolding sort_ranges
Sorted-sort_ranges [] = tt
Sorted-sort_ranges ((b, e) ∷ rs) = Sorted-insert_range b e (sort_ranges rs) (Sorted-sort_ranges rs)

Covered-sort_ranges : (i : ℕ) (rs : List Range) → Covered i rs → Covered i (sort_ranges rs)
unfolding sort_ranges
Covered-sort_ranges i [] h = h
Covered-sort_ranges i ((b, e) ∷ rs) h =
    Covered-insert_range i b e (sort_ranges rs)
      (elim h [ inl here ↦ inl here | inr later ↦ inr (Covered-sort_ranges i rs later) ])

module _ (content : Text) (subs : Subs) (path : Text) where
  Within-insert_range :
      (b e : ℕ) (rs : List Range)
      → b ≤ e
      → e ≤ length content
      → Within content subs path rs
      → Within content subs path (insert_range (b, e) rs)
  unfolding insert_range
  Within-insert_range b e [] h k w = (h, k, tt)
  Within-insert_range b e ((c, d) ∷ rs) h k (cd, dl, w) =
      elim (Bool-cases (range_le (b, e) (c, d))) [
        | inl le ↦ rw le (h, k, (cd, dl, w))
        | inr gt ↦ rw gt (cd, dl, Within-insert_range b e rs h k w)
      ]

  Within-sort_ranges :
      (rs : List Range) → Within content subs path rs → Within content subs path (sort_ranges rs)
  unfolding sort_ranges
  Within-sort_ranges [] w = tt
  Within-sort_ranges ((b, e) ∷ rs) (h, k, w) =
      Within-insert_range b e (sort_ranges rs) h k (Within-sort_ranges rs w)

  abbrev kept_ranges : List Range → List Range
  kept_ranges protected = keep (λ (r : Range). ltb r.0 r.1) (map (clamp (length content)) protected)

  Within-kept_ranges : (rs : List Range) → Within content subs path (kept_ranges rs)
  Within-kept_ranges [] = tt
  Within-kept_ranges ((b, e) ∷ rs) =
      elim (Bool-cases (ltb (min b (length content)) (min e (length content)))) [
        | inl some_bytes ↦ rw some_bytes (ground arith, omega arith, Within-kept_ranges rs)
        | inr no_bytes ↦ rw no_bytes (Within-kept_ranges rs)
      ]

  Covered-kept_ranges :
      (i b e : ℕ) (rs : List Range)
      → i < length content
      → Occurs (b, e) rs
      → b ≤ i
      → i < e
      → Covered i (kept_ranges rs)
  Covered-kept_ranges i b e [] fits h bi ie = absurd h
  Covered-kept_ranges i b e ((c, d) ∷ rs) fits (inl same) bi ie =
      let start : b ≡ c = cc in
      let stop : e ≡ d = cc in
      let held : ltb (min c (length content)) (min d (length content)) ≡ true =
        lt→ltb _ _ (omega arith) in
      rw held (inl (omega arith, omega arith))
  Covered-kept_ranges i b e ((c, d) ∷ rs) fits (inr h) bi ie =
      let later = Covered-kept_ranges i b e rs fits h bi ie in
      elim (Bool-cases (ltb (min c (length content)) (min d (length content)))) [
        | inl some_bytes ↦ rw some_bytes (inr later)
        | inr no_bytes ↦ rw no_bytes later
      ]

-- The generic pass over a binary keeps the length of the file; and if it reports no change, it
-- returns the file's bytes.
pub length-binary_nul_pad :
    (content : Text) (subs : Subs) (protected : List Range) (path : Text) (out : Text)
    (changed : Bool)
    → binary_nul_pad content subs protected path ≡ ok (out, changed)
    → (length out ≡ length content) × (changed ≡ false → out ≡ content)
unfolding binary_nul_pad
length-binary_nul_pad content subs protected path out changed h =
    let ranges = sort_ranges (kept_ranges content subs path protected) in
    let within =
      Within-sort_ranges content subs path _ (Within-kept_ranges content subs path protected) in
    let p = pad_ranges-Padded content subs path 0 ranges out changed h in
    (
      omega (arith, length-Padded content subs path p (omega arith) within),
      λ quiet. Padded-drop content subs path p within quiet,
    )

-- In what the generic pass returns, each byte of the file that stands in a protected range is as it
-- was.
pub get_elem-binary_nul_pad :
    (content : Text) (subs : Subs) (protected : List Range) (path : Text) (out : Text)
    (changed : Bool) (i b e : ℕ)
    → binary_nul_pad content subs protected path ≡ ok (out, changed)
    → i < length content
    → Occurs (b, e) protected
    → b ≤ i
    → i < e
    → get_elem? out i ≡ get_elem? content i
unfolding binary_nul_pad
get_elem-binary_nul_pad content subs protected path out changed i b e h fits member bi ie =
    let kept = kept_ranges content subs path protected in
    let within =
      Within-sort_ranges content subs path _ (Within-kept_ranges content subs path protected) in
    let p = pad_ranges-Padded content subs path 0 (sort_ranges kept) out changed h in
    get_elem-Padded content subs path i i p within (Sorted-sort_ranges kept) (omega arith) fits (
      Covered-sort_ranges i kept
        (Covered-kept_ranges content subs path i b e protected fits member bi ie))
