-- ===== src/Base/Repeats.antt =====
-- Lists without repetition, and how long they can be.
use Prim.Native.Nat.{◌≤◌}
use mathlib.Core.Path.{◌≡◌, refl, sym, ap}
use mathlib.Core.Logic.{inl, inr}
use mathlib.Core.List.{List, [], ◌∷◌, ◌++◌}
use native.Mathlib.Omega.{arith}
use zapbrew.Base.Lists.{
  length, length-append, Occurs, Occurs-append_left, Occurs-append_right, Occurs-append_cases,
}

abbrev pub Distinct : {A : Type 0} → List A → Type 0
Distinct [] = Unit
Distinct (x ∷ xs) = (¬ Occurs x xs) × Distinct xs

module _ {A : Type 0} where
  pub Distinct-snoc : (xs : List A) (x : A) → Distinct xs → ¬ Occurs x xs → Distinct (xs ++ x ∷ [])
  Distinct-snoc [] x d n = (λ h. h, tt)
  Distinct-snoc (y ∷ xs) x (ny, d) n = (
    λ h. elim (Occurs-append_cases y xs (x ∷ []) h) [
      | inl old ↦ ny old
      | inr (inl same) ↦ n (inl (sym same))
      | inr (inr nowhere) ↦ nowhere
    ],
    Distinct-snoc xs x d λ h. n (inr h),
  )

  pub Distinct-init : (xs : List A) (x : A) → Distinct (xs ++ x ∷ []) → Distinct xs
  Distinct-init [] x d = tt
  Distinct-init (y ∷ xs) x (ny, d) =
      (λ h. ny (Occurs-append_left y xs (x ∷ []) h), Distinct-init xs x d)

  pub Distinct-last : (xs : List A) (x : A) → Distinct (xs ++ x ∷ []) → ¬ Occurs x xs
  Distinct-last [] x d h = h
  Distinct-last (y ∷ xs) x (ny, d) (inl same) =
      ny (Occurs-append_right y xs (x ∷ []) (inl (sym same)))
  Distinct-last (y ∷ xs) x (ny, d) (inr h) = Distinct-last xs x d h

  Occurs-split : (x : A) (ys : List A) → Occurs x ys → (l r : List A) × (ys ≡ l ++ x ∷ r)
  Occurs-split x [] h = absurd h
  Occurs-split x (y ∷ ys) (inl e) = ([], ys, ap (λ (z : A). z ∷ ys) (sym e))
  Occurs-split x (y ∷ ys) (inr h) =
      let (l, r, e) = Occurs-split x ys h in (y ∷ l, r, ap (λ (zs : List A). y ∷ zs) e)

  Occurs-others : (x y : A) (l r : List A) → Occurs y (l ++ x ∷ r) → (¬ (y ≡ x)) → Occurs y (l ++ r)
  Occurs-others x y l r h n = elim (Occurs-append_cases y l (x ∷ r) h) [
    | inl a ↦ Occurs-append_left y l r a
    | inr (inl e) ↦ absurd (n e)
    | inr (inr b) ↦ Occurs-append_right y l r b
  ]

  -- A list without repetition is not longer than a list that has all its elements.
  pub Distinct-length :
      (xs ys : List A) → Distinct xs → ((x : A) → Occurs x xs → Occurs x ys) → length xs ≤ length ys
  Distinct-length [] ys d sub = omega arith
  Distinct-length (x ∷ xs) ys (n, d) sub =
      let (l, r, e) = Occurs-split x ys (sub x (inl refl)) in
      let shorter =
        Distinct-length xs (l ++ r) d
          (λ y h. Occurs-others x y l r (rw e at sub y (inr h)) λ same. n (rw same at h)) in
      rw e (omega (arith, shorter, length-append l (x ∷ r), length-append l r))
