-- ===== src/Relocate/Pieces.antt =====
-- Slices of a buffer: their lengths, their elements, and how they join.
use zapbrew.Base.{
  ℕ, zero, suc, ◌+◌, ◌-◌, ◌<◌, ◌≤◌, List, [], ◌∷◌, ◌++◌, length, slice, take, drop, get_elem?, ◌≡◌,
  refl, ap, sym, ◌∙◌, arith,
}
use native.Mathlib.Nat.{zero-add, suc-add}

module _ {ℓ} {A : Type ℓ} where
  pub length-take : (n : ℕ) (xs : List A) → n ≤ length xs → length (take n xs) ≡ n
  length-take zero xs h = refl
  length-take (suc n) [] h = absurd (omega arith)
  length-take (suc n) (x ∷ xs) h = omega (arith, length-take n xs (omega arith))

  pub length-drop : (n : ℕ) (xs : List A) → length (drop n xs) ≡ length xs - n
  length-drop zero xs = omega arith
  length-drop (suc n) [] = omega arith
  length-drop (suc n) (x ∷ xs) = omega (arith, length-drop n xs)

  pub take-drop : (n : ℕ) (xs : List A) → take n xs ++ drop n xs ≡ xs
  take-drop zero xs = refl
  take-drop (suc n) [] = refl
  take-drop (suc n) (x ∷ xs) = ap (λ (r : List A). x ∷ r) (take-drop n xs)

  pub drop-drop : (m n : ℕ) (xs : List A) → drop m (drop n xs) ≡ drop (n + m) xs
  drop-drop m zero xs = rw zero-add refl
  drop-drop zero (suc n) [] = rw suc-add refl
  drop-drop (suc m) (suc n) [] = rw suc-add refl
  drop-drop m (suc n) (x ∷ xs) = rw suc-add (drop-drop m n xs)

  pub get_elem-append_left :
      (xs ys : List A) (i : ℕ) → i < length xs → get_elem? (xs ++ ys) i ≡ get_elem? xs i
  get_elem-append_left [] ys i h = absurd (omega arith)
  get_elem-append_left (x ∷ xs) ys zero h = refl
  get_elem-append_left (x ∷ xs) ys (suc i) h = get_elem-append_left xs ys i (omega arith)

  pub get_elem-append_right :
      (xs ys : List A) (i : ℕ) → get_elem? (xs ++ ys) (length xs + i) ≡ get_elem? ys i
  get_elem-append_right [] ys i = rw zero-add refl
  get_elem-append_right (x ∷ xs) ys i = rw suc-add (get_elem-append_right xs ys i)

  pub get_elem-take :
      (n : ℕ) (xs : List A) (i : ℕ) → i < n → get_elem? (take n xs) i ≡ get_elem? xs i
  get_elem-take zero xs i h = absurd (omega arith)
  get_elem-take (suc n) [] i h = refl
  get_elem-take (suc n) (x ∷ xs) zero h = refl
  get_elem-take (suc n) (x ∷ xs) (suc i) h = get_elem-take n xs i (omega arith)

  pub get_elem-drop : (n : ℕ) (xs : List A) (i : ℕ) → get_elem? (drop n xs) i ≡ get_elem? xs (n + i)
  get_elem-drop zero xs i = rw zero-add refl
  get_elem-drop (suc n) [] i = refl
  get_elem-drop (suc n) (x ∷ xs) i = rw suc-add (get_elem-drop n xs i)

pub length-slice : (s : List ℕ) (b e : ℕ) → b ≤ e → e ≤ length s → length (slice s b e) ≡ e - b
unfolding slice
length-slice s b e h fits = length-take (e - b) (drop b s) (omega (arith, length-drop b s))

-- A slice and what follows it.
pub slice-drop : (s : List ℕ) (b e : ℕ) → b ≤ e → slice s b e ++ drop e s ≡ drop b s
unfolding slice
slice-drop s b e h =
    let place : e ≡ b + (e - b) = omega arith in
    ap (λ (n : ℕ). take (e - b) (drop b s) ++ drop n s) place
    ∙ (ap (λ (r : List ℕ). take (e - b) (drop b s) ++ r) (sym (drop-drop (e - b) b s))
        ∙ take-drop (e - b) (drop b s))

pub get_elem-slice :
    (s : List ℕ) (b e i : ℕ) → i < e - b → get_elem? (slice s b e) i ≡ get_elem? s (b + i)
unfolding slice
get_elem-slice s b e i h = get_elem-take (e - b) (drop b s) i h ∙ get_elem-drop b s i

-- What stands behind a text does not matter within it.
pub stretch-append :
    (xs ys : List ℕ) (i n : ℕ) → i + n ≤ length xs → take n (drop i (xs ++ ys)) ≡ take n (drop i xs)
stretch-append xs ys i zero h = refl
stretch-append [] ys i (suc n) h = absurd (omega arith)
stretch-append (x ∷ xs) ys zero (suc n) h =
    ap (λ (r : List ℕ). x ∷ r) (stretch-append xs ys 0 n (omega arith))
stretch-append (x ∷ xs) ys (suc i) (suc n) h = stretch-append xs ys i (suc n) (omega arith)
