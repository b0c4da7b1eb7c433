-- ===== src/Version/Order.antt =====
-- The order on versions is a total preorder.
use zapbrew.Base.{
  ℕ, zero, suc, ◌+◌, ◌≤◌, max, Text, text_eq→eq, Bool, false, List, [], ◌∷◌, if◌then◌else◌,
  is_empty, length, compare, Ordering, then_with, reversed, IsOrder, compare-IsOrder, IsOrder-key,
  IsOrder-then, IsOrder-cast, IsOrder-refl, arith, ◌≡◌, refl, ap, sym, ◌∙◌,
}
use zapbrew.Version.Patterns.{Regexes, head_re}
use zapbrew.Version.Tokens.{Token, parse_tokens}
use zapbrew.Version.Canonical.{
  CanonToken, canonical_tokens, cmp_canonical, cmp_rounds, cmp_at, first, others,
}
use zapbrew.Version.{Version, parse_with_flag, cmp}
use zapbrew.Version.TokenOrder.{cmp_at-IsOrder}

-- Sequences, for a fixed number of rounds.
constant-IsOrder : IsOrder (λ (a b : List CanonToken). Ordering.eq)
unfolding reversed
constant-IsOrder = record {
  swap = λ a b. refl;
  lt_trans = λ a b c h k. h;
  eq_congr = λ a b c h. refl;
}

cmp_rounds-IsOrder : (n : ℕ) → IsOrder (cmp_rounds n)
unfolding cmp_rounds
cmp_rounds-IsOrder zero = constant-IsOrder
cmp_rounds-IsOrder (suc n) =
    IsOrder-then (λ (a b : List CanonToken). cmp_at (first a) (first b))
      (λ (a b : List CanonToken). cmp_rounds n (others a) (others b))
      (IsOrder-key first cmp_at cmp_at-IsOrder)
      (IsOrder-key others (cmp_rounds n) (cmp_rounds-IsOrder n))

-- Rounds behind the end of both sequences change nothing.
cmp_rounds-nil : (n : ℕ) → cmp_rounds n [] [] ≡ Ordering.eq
unfolding cmp_rounds
cmp_rounds-nil zero = refl
cmp_rounds-nil (suc n) = cmp_rounds-nil n

cmp_rounds-enough :
    (n m : ℕ) (a b : List CanonToken)
    → length a ≤ n
    → length b ≤ n
    → n ≤ m
    → cmp_rounds m a b ≡ cmp_rounds n a b
unfolding cmp_rounds
cmp_rounds-enough zero m [] [] h k l = cmp_rounds-nil m
cmp_rounds-enough zero m [] (d ∷ b) h k l = absurd (omega arith)
cmp_rounds-enough zero m (c ∷ a) b h k l = absurd (omega arith)
cmp_rounds-enough (suc n) zero a b h k l = absurd (omega arith)
cmp_rounds-enough (suc n) (suc m) a b h k l = ap (then_with (cmp_at (first a) (first b))) (
    cmp_rounds-enough n m (others a) (others b) (length-others a h) (length-others b k)
      (omega arith))
  where
    length-others : (c : List CanonToken) → length c ≤ suc n → length (others c) ≤ n
    length-others [] e = omega arith
    length-others (x ∷ c) e = omega arith

module _ (n : ℕ) (a b : List CanonToken) (ha : length a ≤ n) (hb : length b ≤ n) where
  cmp_canonical-rounds : cmp_canonical a b ≡ cmp_rounds n a b
  unfolding cmp_canonical
  cmp_canonical-rounds = sym (
      cmp_rounds-enough (max (length a) (length b)) n a b (omega arith) (omega arith) (omega arith))

-- The padded comparison of canonical sequences is a total preorder.
pub cmp_canonical-IsOrder : IsOrder cmp_canonical
cmp_canonical-IsOrder = record {
  swap = λ a b.
      let n = length a + length b in
      let o = cmp_rounds-IsOrder n in
      cc (
        cmp_canonical-rounds n a b (omega arith) (omega arith),
        cmp_canonical-rounds n b a (omega arith) (omega arith),
        o.swap a b,
      );
  lt_trans = λ a b c h k.
      let n = length a + length b + length c in
      let o = cmp_rounds-IsOrder n in
      cmp_canonical-rounds n a c (omega arith) (omega arith)
      ∙ o.lt_trans a b c (sym (cmp_canonical-rounds n a b (omega arith) (omega arith)) ∙ h)
          (sym (cmp_canonical-rounds n b c (omega arith) (omega arith)) ∙ k);
  eq_congr = λ a b c h.
      let n = length a + length b + length c in
      let o = cmp_rounds-IsOrder n in
      cmp_canonical-rounds n a c (omega arith) (omega arith)
      ∙ o.eq_congr a b c (sym (cmp_canonical-rounds n a b (omega arith) (omega arith)) ∙ h)
      ∙ sym (cmp_canonical-rounds n b c (omega arith) (omega arith));
}

pub cmp_canonical_refl : (a : List CanonToken) → cmp_canonical a a ≡ Ordering.eq
cmp_canonical_refl = IsOrder-refl cmp_canonical cmp_canonical-IsOrder

-- Versions: the null version, then ordinary ones, then HEAD.
abbrev class_of : Version → ℕ
class_of v = if is_empty v.raw then 0 else if v.is_head then 2 else 1

abbrev sequence_of : Version → List CanonToken
sequence_of v = if is_empty v.raw then [] else if v.is_head then [] else canonical_tokens v.tokens

abbrev cmp_by_class : Version → Version → Ordering
cmp_by_class v w =
    then_with (compare (class_of v) (class_of w)) (cmp_canonical (sequence_of v) (sequence_of w))

cmp_by_class-IsOrder : IsOrder cmp_by_class
cmp_by_class-IsOrder =
    IsOrder-then (λ (v w : Version). compare (class_of v) (class_of w))
      (λ (v w : Version). cmp_canonical (sequence_of v) (sequence_of w))
      (IsOrder-key class_of compare compare-IsOrder)
      (IsOrder-key sequence_of cmp_canonical cmp_canonical-IsOrder)

-- Versions that are read from the same text have the same tokens and the same HEAD flag.
abbrev pub SameSource : Version → Version → Type 0
SameSource v w = v.raw ≡ w.raw → (v.tokens ≡ w.tokens) × (v.is_head ≡ w.is_head)

cmp-by_class : (v w : Version) → SameSource v w → cmp v w ≡ cmp_by_class v w
unfolding cmp then_with
cmp-by_class v w same = ground (
  arith,
  text_eq→eq v.raw w.raw,
  cmp_canonical_refl (canonical_tokens v.tokens),
  cmp_canonical_refl [],
)

abbrev pub Source : Type 0
Source = Text × Bool

pub raw-parse : (re : Regexes) (s : Text) (f : Bool) → (parse_with_flag re s f).raw ≡ s
unfolding parse_with_flag
raw-parse re [] f = refl
raw-parse re (c ∷ cs) f = refl

-- The tokens and the HEAD flag that parsing gives a text.
abbrev parts : Regexes → Text → List Token × Bool
parts re s = if is_empty s then ([], false) else (parse_tokens re s, re.is_match head_re s)

parts-parse :
    (re : Regexes) (s : Text) (f : Bool)
    → ((parse_with_flag re s f).tokens, (parse_with_flag re s f).is_head) ≡ parts re s
unfolding parse_with_flag
parts-parse re [] f = refl
parts-parse re (c ∷ cs) f = refl

pub parse-SameSource :
    (re : Regexes) (s t : Source)
    → SameSource (parse_with_flag re s.0 s.1) (parse_with_flag re t.0 t.1)
unfolding parse_with_flag
parse-SameSource re (s, f) (t, g) e =
    let same : s ≡ t = sym (raw-parse re s f) ∙ e ∙ raw-parse re t g in
    let all_parts : ((parse_with_flag re s f).tokens, (parse_with_flag re s f).is_head)
        ≡ ((parse_with_flag re t g).tokens, (parse_with_flag re t g).is_head) =
      parts-parse re s f ∙ ap (parts re) same ∙ sym (parts-parse re t g) in
    (ap (λ (p : List Token × Bool). p.0) all_parts, ap (λ (p : List Token × Bool). p.1) all_parts)

-- `Version`'s `Ord` is a total preorder on all versions that parsing and detection make: reversing
-- the arguments reverses the result, `Less` is transitive, and versions that compare equal
-- compare alike with every other version.
pub cmp-IsOrder :
    (re : Regexes)
    → IsOrder (λ (s t : Source). cmp (parse_with_flag re s.0 s.1) (parse_with_flag re t.0 t.1))
cmp-IsOrder re =
    IsOrder-cast _ (λ (s t : Source). cmp_by_class (read s) (read t))
      (λ s t. cmp-by_class (read s) (read t) (parse-SameSource re s t))
      (IsOrder-key read cmp_by_class cmp_by_class-IsOrder)
  where
    read : Source → Version
    read s = parse_with_flag re s.0 s.1
