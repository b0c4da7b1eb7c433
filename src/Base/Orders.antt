-- ===== src/Base/Orders.antt =====
-- Comparison functions as Rust's `Ord` has them: the laws of a total preorder, closed under
-- `then_with` and under reading keys.
use Prim.Native.Nat.{compare, Ordering}
use mathlib.Core.Path.{◌≡◌}
use native.Mathlib.Omega.{arith}

-- `Ordering::reverse`
unfoldable pub reversed : Ordering → Ordering
reversed Ordering.lt = Ordering.gt
reversed Ordering.eq = Ordering.eq
reversed Ordering.gt = Ordering.lt

-- `Ordering::then_with`
unfoldable pub then_with : Ordering → Ordering → Ordering
then_with Ordering.eq o = o
then_with Ordering.lt o = Ordering.lt
then_with Ordering.gt o = Ordering.gt

pub record IsOrder {ℓ} {A : Type ℓ} (cmp : A → A → Ordering) : Type ℓ where
  pub swap : (a b : A) → cmp b a ≡ reversed (cmp a b)
  pub lt_trans : (a b c : A) → cmp a b ≡ Ordering.lt → cmp b c ≡ Ordering.lt → cmp a c ≡ Ordering.lt
  pub eq_congr : (a b c : A) → cmp a b ≡ Ordering.eq → cmp a c ≡ cmp b c

pub compare-IsOrder : IsOrder compare
unfolding reversed
compare-IsOrder = record {
  swap = λ a b. ground arith;
  lt_trans = λ a b c p q. ground arith;
  eq_congr = λ a b c p. ground arith;
}

module _ {ℓ κ} {A : Type ℓ} {B : Type κ} where
  -- Comparing by a key.
  pub IsOrder-key :
      (f : A → B) (cmp : B → B → Ordering) → IsOrder cmp → IsOrder (λ a b. cmp (f a) (f b))
  IsOrder-key f cmp o = record {
    swap = λ a b. o.swap (f a) (f b);
    lt_trans = λ a b c. o.lt_trans (f a) (f b) (f c);
    eq_congr = λ a b c. o.eq_congr (f a) (f b) (f c);
  }

module _ {ℓ} {A : Type ℓ} where
  -- Comparing by one order, and by another where that ties.
  pub IsOrder-then :
      (f g : A → A → Ordering) → IsOrder f → IsOrder g → IsOrder (λ a b. then_with (f a b) (g a b))
  unfolding then_with reversed
  IsOrder-then f g of og = record {
    swap = λ a b. ground (arith, of.swap a b, og.swap a b);
    lt_trans = λ a b c p q. ground (
      arith,
      of.lt_trans a b c,
      og.lt_trans a b c,
      of.eq_congr a b c,
      of.eq_congr c b a,
      of.swap b c,
      of.swap a c,
      of.swap a b,
    );
    eq_congr = λ a b c p. ground (arith, of.eq_congr a b c, og.eq_congr a b c);
  }

  -- The same comparison, written otherwise.
  pub IsOrder-cast : (f g : A → A → Ordering) → ((a b : A) → f a b ≡ g a b) → IsOrder g → IsOrder f
  IsOrder-cast f g e o = record {
    swap = λ a b. cc (e a b, e b a, o.swap a b);
    lt_trans = λ a b c p q. cc (e a c, o.lt_trans a b c (cc (e a b)) (cc (e b c)));
    eq_congr = λ a b c p. cc (e a c, e b c, o.eq_congr a b c (cc (e a b)));
  }

  pub IsOrder-refl : (f : A → A → Ordering) → IsOrder f → (a : A) → f a a ≡ Ordering.eq
  unfolding reversed
  IsOrder-refl f o a = ground (arith, o.swap a a)
