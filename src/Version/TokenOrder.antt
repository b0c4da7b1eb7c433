-- ===== src/Version/TokenOrder.antt =====
-- The orders on texts, digit strings and canonical tokens (version.rs) are total preorders.
use zapbrew.Base.{
  ℕ, Text, [], ◌∷◌, Option, none, some, length, compare, Ordering, then_with, reversed, cmp_text,
  IsOrder, compare-IsOrder, IsOrder-key, IsOrder-then, IsOrder-cast, arith, ◌≡◌, refl, sym,
}
use zapbrew.Version.Tokens.{strip_leading_zeros}
use zapbrew.Version.Canonical.{
  CanonToken, cmp_at, cmp_canon_token, canon_rank, cmp_digit_strings, cmp_stripped, end_rank,
}

-- Texts.
cmp_text-swap : (a b : Text) → cmp_text b a ≡ reversed (cmp_text a b)
unfolding cmp_text reversed
cmp_text-swap [] [] = refl
cmp_text-swap [] (d ∷ ds) = refl
cmp_text-swap (c ∷ cs) [] = refl
cmp_text-swap (c ∷ cs) (d ∷ ds) = ground (arith, cmp_text-swap cs ds)

cmp_text-eq_congr : (a b c : Text) → cmp_text a b ≡ Ordering.eq → cmp_text a c ≡ cmp_text b c
unfolding cmp_text
cmp_text-eq_congr [] [] c h = refl
cmp_text-eq_congr [] (y ∷ b) c h = cc
cmp_text-eq_congr (x ∷ a) [] c h = cc
cmp_text-eq_congr (x ∷ a) (y ∷ b) [] h = refl
cmp_text-eq_congr (x ∷ a) (y ∷ b) (z ∷ c) h = ground (arith, cmp_text-eq_congr a b c)

cmp_text-lt_trans :
    (a b c : Text)
    → cmp_text a b ≡ Ordering.lt
    → cmp_text b c ≡ Ordering.lt
    → cmp_text a c ≡ Ordering.lt
unfolding cmp_text
cmp_text-lt_trans [] [] c h k = cc
cmp_text-lt_trans [] (y ∷ b) [] h k = cc
cmp_text-lt_trans [] (y ∷ b) (z ∷ c) h k = refl
cmp_text-lt_trans (x ∷ a) [] c h k = cc
cmp_text-lt_trans (x ∷ a) (y ∷ b) [] h k = cc
cmp_text-lt_trans (x ∷ a) (y ∷ b) (z ∷ c) h k = ground (
  arith,
  cmp_text-lt_trans a b c,
  cmp_text-eq_congr a b c,
  cmp_text-eq_congr c b a,
  cmp_text-swap b c,
  cmp_text-swap a c,
  cmp_text-swap a b,
)

pub cmp_text-IsOrder : IsOrder cmp_text
cmp_text-IsOrder = record {
  swap = cmp_text-swap;
  lt_trans = cmp_text-lt_trans;
  eq_congr = cmp_text-eq_congr;
}

-- Digit strings: by length and then bytewise, once the leading zeros are off.
cmp_stripped-eq :
    (a b : Text) → cmp_stripped a b ≡ then_with (compare (length a) (length b)) (cmp_text a b)
unfolding cmp_text
cmp_stripped-eq [] [] = refl
cmp_stripped-eq [] (d ∷ ds) = ground arith
cmp_stripped-eq (c ∷ cs) [] = ground arith
cmp_stripped-eq (c ∷ cs) (d ∷ ds) = refl

length_then_text-IsOrder :
    IsOrder (λ (a b : Text). then_with (compare (length a) (length b)) (cmp_text a b))
length_then_text-IsOrder =
    IsOrder-then (λ (a b : Text). compare (length a) (length b)) cmp_text
      (IsOrder-key (λ (a : Text). length a) compare compare-IsOrder) cmp_text-IsOrder

pub cmp_digit_strings-IsOrder : IsOrder cmp_digit_strings
unfolding cmp_digit_strings
cmp_digit_strings-IsOrder =
    IsOrder-key strip_leading_zeros cmp_stripped
      (IsOrder-cast cmp_stripped _ cmp_stripped-eq length_then_text-IsOrder)

-- Tokens: the class rank (the end of a sequence has one too), then the payload.
abbrev rank_at : Option CanonToken → ℕ
rank_at none = end_rank
rank_at (some t) = canon_rank t

abbrev text_at : Option CanonToken → Text
text_at (some (CanonToken.string s)) = s
text_at _ = []

abbrev digits_at : Option CanonToken → Text
digits_at none = []
digits_at (some (CanonToken.string s)) = []
digits_at (some (CanonToken.numeric d)) = d
digits_at (some (CanonToken.alpha d)) = d
digits_at (some (CanonToken.beta d)) = d
digits_at (some (CanonToken.pre d)) = d
digits_at (some (CanonToken.rc d)) = d
digits_at (some (CanonToken.patch d)) = d
digits_at (some (CanonToken.post d)) = d

abbrev cmp_payload : Option CanonToken → Option CanonToken → Ordering
cmp_payload a b =
    then_with (cmp_text (text_at a) (text_at b)) (cmp_digit_strings (digits_at a) (digits_at b))

then_with-eq : (o : Ordering) → then_with o Ordering.eq ≡ o
unfolding then_with
then_with-eq Ordering.lt = refl
then_with-eq _ = refl

cmp_at-payload :
    (a b : Option CanonToken)
    → cmp_at a b ≡ then_with (compare (rank_at a) (rank_at b)) (cmp_payload a b)
unfolding cmp_canon_token
cmp_at-payload none none = refl
cmp_at-payload none (some (CanonToken.alpha y)) = refl
cmp_at-payload none (some _) = refl
cmp_at-payload (some (CanonToken.alpha x)) none = refl
cmp_at-payload (some (CanonToken.alpha x)) (some (CanonToken.alpha y)) = refl
cmp_at-payload (some (CanonToken.alpha x)) (some _) = refl
cmp_at-payload (some (CanonToken.beta x)) none = refl
cmp_at-payload (some (CanonToken.beta x)) (some (CanonToken.alpha y)) = refl
cmp_at-payload (some (CanonToken.beta x)) (some _) = refl
cmp_at-payload (some (CanonToken.pre x)) none = refl
cmp_at-payload (some (CanonToken.pre x)) (some (CanonToken.alpha y)) = refl
cmp_at-payload (some (CanonToken.pre x)) (some _) = refl
cmp_at-payload (some (CanonToken.rc x)) none = refl
cmp_at-payload (some (CanonToken.rc x)) (some (CanonToken.alpha y)) = refl
cmp_at-payload (some (CanonToken.rc x)) (some _) = refl
cmp_at-payload (some (CanonToken.patch x)) none = refl
cmp_at-payload (some (CanonToken.patch x)) (some (CanonToken.alpha y)) = refl
cmp_at-payload (some (CanonToken.patch x)) (some _) = refl
cmp_at-payload (some (CanonToken.post x)) none = refl
cmp_at-payload (some (CanonToken.post x)) (some (CanonToken.alpha y)) = refl
cmp_at-payload (some (CanonToken.post x)) (some _) = refl
cmp_at-payload (some (CanonToken.numeric x)) none = refl
cmp_at-payload (some (CanonToken.numeric x)) (some (CanonToken.alpha y)) = refl
cmp_at-payload (some (CanonToken.numeric x)) (some _) = refl
cmp_at-payload (some (CanonToken.string x)) none = refl
cmp_at-payload (some (CanonToken.string x)) (some (CanonToken.string y)) =
    sym (then_with-eq (cmp_text x y))
cmp_at-payload (some (CanonToken.string x)) (some _) = refl

pub cmp_at-IsOrder : IsOrder cmp_at
cmp_at-IsOrder = IsOrder-cast cmp_at _ cmp_at-payload (
    IsOrder-then (λ (a b : Option CanonToken). compare (rank_at a) (rank_at b)) cmp_payload
      (IsOrder-key rank_at compare compare-IsOrder)
      (IsOrder-then (λ (a b : Option CanonToken). cmp_text (text_at a) (text_at b))
        (λ (a b : Option CanonToken). cmp_digit_strings (digits_at a) (digits_at b))
        (IsOrder-key text_at cmp_text cmp_text-IsOrder)
        (IsOrder-key digits_at cmp_digit_strings cmp_digit_strings-IsOrder)))
