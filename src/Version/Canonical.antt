-- ===== src/Version/Canonical.antt =====
-- version.rs: the canonical token sequence and its comparison.
use zapbrew.Base.{
  ℕ, zero, suc, max, Text, bytes, text_eq, Bool, true, false, ◌&&◌, List, [], ◌∷◌, Option, none,
  some, if◌then◌else◌, length, compare, Ordering, then_with, cmp_text, ◌==◌,
}
use zapbrew.Version.Tokens.{Token, is_zero_digits, strip_leading_zeros}

-- `CanonToken`; an interstitial zero is `numeric []`.
pub data CanonToken : Type 0 where
  string : Text → CanonToken
  numeric : Text → CanonToken
  alpha : Text → CanonToken
  beta : Text → CanonToken
  pre : Text → CanonToken
  rc : Text → CanonToken
  patch : Text → CanonToken
  post : Text → CanonToken

unfoldable pub canonical : Token → CanonToken
canonical (Token.string s) = CanonToken.string s
canonical (Token.numeric n) = CanonToken.numeric (strip_leading_zeros n)
canonical (Token.alpha rev) = CanonToken.alpha (strip_leading_zeros rev)
canonical (Token.beta rev) = CanonToken.beta (strip_leading_zeros rev)
canonical (Token.pre rev) = CanonToken.pre (strip_leading_zeros rev)
canonical (Token.rc rev) = CanonToken.rc (strip_leading_zeros rev)
canonical (Token.patch rev) = CanonToken.patch (strip_leading_zeros rev)
canonical (Token.post rev) = CanonToken.post (strip_leading_zeros rev)

abbrev pub is_numeric_token : Option Token → Bool
is_numeric_token (some (Token.numeric n)) = true
is_numeric_token _ = false

-- One round of `normalize_tokens`: what is pushed for `t` behind `last`.
abbrev pub normalized : Option Token → Token → Token
normalized last (Token.string s) =
    if text_eq s (bytes "B") && is_numeric_token last then Token.beta [] else Token.string s
normalized last t = t

-- The loop of `normalize_tokens`; `last` is the last token of `out`.
unfoldable pub normalize_from : Option Token → List Token → List Token
normalize_from last [] = []
normalize_from last (t ∷ ts) = let u = normalized last t in u ∷ normalize_from (some u) ts

unfoldable pub normalize_tokens : List Token → List Token
unfolding normalize_from
normalize_tokens = normalize_from none

abbrev pub is_zero_numeric : Token → Bool
is_zero_numeric (Token.numeric n) = is_zero_digits n
is_zero_numeric _ = false

abbrev pub is_numeric : CanonToken → Bool
is_numeric (CanonToken.numeric n) = true
is_numeric _ = false

-- Whether the next retained token is there and numeric: `next_retained_is_numeric == Some(true)`.
abbrev pub next_is_numeric : List CanonToken → Bool
next_is_numeric [] = false
next_is_numeric (c ∷ cs) = is_numeric c

-- One round of the right-to-left loop, on what is retained to the right of `t`.
abbrev pub retain : Token → List CanonToken → List CanonToken
retain t rest =
    if is_zero_numeric t
    then (if next_is_numeric rest then canonical t ∷ rest else rest)
    else canonical t ∷ rest

-- The loop from the right end, with its `reverse`, is a recursion to the right end and back.
unfoldable pub retain_all : List Token → List CanonToken
unfolding is_zero_digits canonical strip_leading_zeros
retain_all [] = []
retain_all (t ∷ ts) = retain t (retain_all ts)

unfoldable pub canonical_tokens : List Token → List CanonToken
unfolding retain_all normalize_tokens
canonical_tokens ts = retain_all (normalize_tokens ts)

abbrev pub end_rank : ℕ
end_rank = 4

unfoldable pub canon_rank : CanonToken → ℕ
canon_rank (CanonToken.alpha _) = 0
canon_rank (CanonToken.beta _) = 1
canon_rank (CanonToken.pre _) = 2
canon_rank (CanonToken.rc _) = 3
canon_rank (CanonToken.post _) = 5
canon_rank (CanonToken.string _) = 6
canon_rank (CanonToken.patch _) = 7
canon_rank (CanonToken.numeric _) = 8

abbrev pub cmp_stripped : Text → Text → Ordering
cmp_stripped [] [] = Ordering.eq
cmp_stripped [] (d ∷ ds) = Ordering.lt
cmp_stripped (c ∷ cs) [] = Ordering.gt
cmp_stripped (c ∷ cs) (d ∷ ds) =
    then_with (compare (length (c ∷ cs)) (length (d ∷ ds))) (cmp_text (c ∷ cs) (d ∷ ds))

unfoldable pub cmp_digit_strings : Text → Text → Ordering
unfolding strip_leading_zeros then_with cmp_text
cmp_digit_strings a b = cmp_stripped (strip_leading_zeros a) (strip_leading_zeros b)

-- The comparison within a class.
abbrev pub cmp_same : CanonToken → CanonToken → Ordering
cmp_same (CanonToken.string x) (CanonToken.string y) = cmp_text x y
cmp_same (CanonToken.alpha x) (CanonToken.alpha y) = cmp_digit_strings x y
cmp_same (CanonToken.beta x) (CanonToken.beta y) = cmp_digit_strings x y
cmp_same (CanonToken.pre x) (CanonToken.pre y) = cmp_digit_strings x y
cmp_same (CanonToken.rc x) (CanonToken.rc y) = cmp_digit_strings x y
cmp_same (CanonToken.patch x) (CanonToken.patch y) = cmp_digit_strings x y
cmp_same (CanonToken.post x) (CanonToken.post y) = cmp_digit_strings x y
cmp_same (CanonToken.numeric x) (CanonToken.numeric y) = cmp_digit_strings x y
cmp_same _ _ = Ordering.eq

unfoldable pub cmp_canon_token : CanonToken → CanonToken → Ordering
unfolding canon_rank cmp_digit_strings
cmp_canon_token a b =
    if canon_rank a == canon_rank b then cmp_same a b else compare (canon_rank a) (canon_rank b)

-- The comparison at one index: `left.get(i)` with `right.get(i)`.
abbrev pub cmp_at : Option CanonToken → Option CanonToken → Ordering
cmp_at none none = Ordering.eq
cmp_at none (some r) = compare end_rank (canon_rank r)
cmp_at (some l) none = compare (canon_rank l) end_rank
cmp_at (some l) (some r) = cmp_canon_token l r

abbrev pub first : List CanonToken → Option CanonToken
first [] = none
first (c ∷ cs) = some c

abbrev pub others : List CanonToken → List CanonToken
others [] = []
others (c ∷ cs) = cs

-- The `for` loop over the indices, by the number of rounds left.
unfoldable pub cmp_rounds : ℕ → List CanonToken → List CanonToken → Ordering
unfolding then_with cmp_canon_token
cmp_rounds zero left right = Ordering.eq
cmp_rounds (suc n) left right =
    then_with (cmp_at (first left) (first right)) (cmp_rounds n (others left) (others right))

unfoldable pub cmp_canonical : List CanonToken → List CanonToken → Ordering
unfolding cmp_rounds
cmp_canonical left right = cmp_rounds (max (length left) (length right)) left right
