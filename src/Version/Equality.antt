-- ===== src/Version/Equality.antt =====
-- Equality of versions agrees with hashing.
use zapbrew.Base.{
  ℕ, zero, suc, ◌≤◌, Text, text_eq→eq, Bool, List, [], ◌∷◌, length, compare, Ordering, then_with,
  cmp_text, arith, ◌≡◌, ◌≢◌, ◌↔◌, refl, ap, sym, ◌∙◌, Bool-cases, inl, inr,
}
use zapbrew.Version.Patterns.{Regexes}
use zapbrew.Version.Tokens.{Token, strip_leading_zeros}
use zapbrew.Version.Canonical.{
  CanonToken, canonical, canonical_tokens, cmp_canonical, cmp_rounds, cmp_canon_token, canon_rank,
  cmp_digit_strings, cmp_stripped, retain_all, retain, normalize_tokens, next_is_numeric,
  is_zero_numeric, end_rank,
}
use zapbrew.Version.{Version, parse_with_flag, cmp, hash_input}
use zapbrew.Version.Order.{cmp_canonical_refl, SameSource, parse-SameSource}

strip-strip : (s : Text) → strip_leading_zeros (strip_leading_zeros s) ≡ strip_leading_zeros s
unfolding strip_leading_zeros
strip-strip [] = refl
strip-strip (c ∷ s) = ground (arith, strip-strip s)

cmp_text-eq : (a b : Text) → cmp_text a b ≡ Ordering.eq → a ≡ b
unfolding cmp_text
cmp_text-eq [] [] h = refl
cmp_text-eq [] (d ∷ b) h = cc
cmp_text-eq (c ∷ a) [] h = cc
cmp_text-eq (c ∷ a) (d ∷ b) h = ground (arith, cmp_text-eq a b)

cmp_stripped-eq_lem : (a b : Text) → cmp_stripped a b ≡ Ordering.eq → a ≡ b
unfolding then_with
cmp_stripped-eq_lem [] [] h = refl
cmp_stripped-eq_lem [] (d ∷ b) h = cc
cmp_stripped-eq_lem (c ∷ a) [] h = cc
cmp_stripped-eq_lem (c ∷ a) (d ∷ b) h = ground (arith, cmp_text-eq (c ∷ a) (d ∷ b))

-- The digits of a token carry no leading zeros.
abbrev IsStripped : CanonToken → Type 0
IsStripped (CanonToken.string s) = Unit
IsStripped (CanonToken.numeric d) = strip_leading_zeros d ≡ d
IsStripped (CanonToken.alpha d) = strip_leading_zeros d ≡ d
IsStripped (CanonToken.beta d) = strip_leading_zeros d ≡ d
IsStripped (CanonToken.pre d) = strip_leading_zeros d ≡ d
IsStripped (CanonToken.rc d) = strip_leading_zeros d ≡ d
IsStripped (CanonToken.patch d) = strip_leading_zeros d ≡ d
IsStripped (CanonToken.post d) = strip_leading_zeros d ≡ d

abbrev AllStripped : List CanonToken → Type 0
AllStripped [] = Unit
AllStripped (c ∷ cs) = IsStripped c × AllStripped cs

canonical-IsStripped : (t : Token) → IsStripped (canonical t)
unfolding canonical
canonical-IsStripped (Token.string s) = tt
canonical-IsStripped (Token.numeric d) = strip-strip d
canonical-IsStripped (Token.alpha d) = strip-strip d
canonical-IsStripped (Token.beta d) = strip-strip d
canonical-IsStripped (Token.pre d) = strip-strip d
canonical-IsStripped (Token.rc d) = strip-strip d
canonical-IsStripped (Token.patch d) = strip-strip d
canonical-IsStripped (Token.post d) = strip-strip d

retain-AllStripped : (t : Token) (r : List CanonToken) → AllStripped r → AllStripped (retain t r)
retain-AllStripped t r h = elim (Bool-cases (is_zero_numeric t)) [
  | inl zero_token ↦ elim (Bool-cases (next_is_numeric r)) [
    | inl kept ↦ rw (zero_token, kept) (canonical-IsStripped t, h)
    | inr dropped ↦ rw (zero_token, dropped) h
  ]
  | inr other ↦ rw other (canonical-IsStripped t, h)
]

retain_all-AllStripped : (ts : List Token) → AllStripped (retain_all ts)
unfolding retain_all
retain_all-AllStripped [] = tt
retain_all-AllStripped (t ∷ ts) = retain-AllStripped t (retain_all ts) (retain_all-AllStripped ts)

then-fst : (o p : Ordering) → then_with o p ≡ Ordering.eq → o ≡ Ordering.eq
unfolding then_with
then-fst Ordering.lt p h = cc
then-fst Ordering.eq p h = refl
then-fst Ordering.gt p h = cc

then-snd : (o p : Ordering) → then_with o p ≡ Ordering.eq → p ≡ Ordering.eq
unfolding then_with
then-snd Ordering.lt p h = cc
then-snd Ordering.eq p h = h
then-snd Ordering.gt p h = cc

-- Stripped tokens that compare equal are equal.
digits-eq :
    (x y : Text)
    → strip_leading_zeros x ≡ x
    → strip_leading_zeros y ≡ y
    → cmp_digit_strings x y ≡ Ordering.eq
    → x ≡ y
unfolding cmp_digit_strings
digits-eq x y hx hy h = sym hx ∙ cmp_stripped-eq_lem _ _ h ∙ hy

token-eq :
    (a b : CanonToken) → IsStripped a → IsStripped b → cmp_canon_token a b ≡ Ordering.eq → a ≡ b
unfolding cmp_canon_token
token-eq (CanonToken.alpha x) (CanonToken.alpha y) p q h = ap CanonToken.alpha (digits-eq x y p q h)
token-eq (CanonToken.alpha x) _ p q h = cc
token-eq (CanonToken.beta x) (CanonToken.beta y) p q h = ap CanonToken.beta (digits-eq x y p q h)
token-eq (CanonToken.beta x) _ p q h = cc
token-eq (CanonToken.pre x) (CanonToken.pre y) p q h = ap CanonToken.pre (digits-eq x y p q h)
token-eq (CanonToken.pre x) _ p q h = cc
token-eq (CanonToken.rc x) (CanonToken.rc y) p q h = ap CanonToken.rc (digits-eq x y p q h)
token-eq (CanonToken.rc x) _ p q h = cc
token-eq (CanonToken.patch x) (CanonToken.patch y) p q h = ap CanonToken.patch (digits-eq x y p q h)
token-eq (CanonToken.patch x) _ p q h = cc
token-eq (CanonToken.post x) (CanonToken.post y) p q h = ap CanonToken.post (digits-eq x y p q h)
token-eq (CanonToken.post x) _ p q h = cc
token-eq (CanonToken.numeric x) (CanonToken.numeric y) p q h =
    ap CanonToken.numeric (digits-eq x y p q h)
token-eq (CanonToken.numeric x) _ p q h = cc
token-eq (CanonToken.string x) (CanonToken.string y) p q h =
    ap CanonToken.string (cmp_text-eq x y h)
token-eq (CanonToken.string x) _ p q h = cc

-- The end of a sequence ties no token.
end-ne : (c : CanonToken) → compare end_rank (canon_rank c) ≢ Ordering.eq
unfolding canon_rank
end-ne (CanonToken.alpha x) h = cc
end-ne _ h = cc

ne-end : (c : CanonToken) → compare (canon_rank c) end_rank ≢ Ordering.eq
unfolding canon_rank
ne-end (CanonToken.alpha x) h = cc
ne-end _ h = cc

rounds-eq :
    (n : ℕ) (a b : List CanonToken)
    → length a ≤ n
    → length b ≤ n
    → AllStripped a
    → AllStripped b
    → cmp_rounds n a b ≡ Ordering.eq
    → a ≡ b
unfolding cmp_rounds
rounds-eq n [] [] la lb sa sb h = refl
rounds-eq zero [] (d ∷ b) la lb sa sb h = absurd (omega arith)
rounds-eq zero (c ∷ a) b la lb sa sb h = absurd (omega arith)
rounds-eq (suc n) [] (d ∷ b) la lb sa sb h = absurd (end-ne d (then-fst _ _ h))
rounds-eq (suc n) (c ∷ a) [] la lb sa sb h = absurd (ne-end c (then-fst _ _ h))
rounds-eq (suc n) (c ∷ a) (d ∷ b) la lb sa sb h =
    let same_head : c ≡ d = token-eq c d sa.0 sb.0 (then-fst (cmp_canon_token c d) _ h) in
    let same_rest : a ≡ b =
      rounds-eq n a b (omega arith) (omega arith) sa.1 sb.1 (then-snd (cmp_canon_token c d) _ h) in
    cc

-- Canonical sequences that compare equal are equal.
canonical-eq :
    (ts us : List Token)
    → cmp_canonical (canonical_tokens ts) (canonical_tokens us) ≡ Ordering.eq
    → canonical_tokens ts ≡ canonical_tokens us
unfolding cmp_canonical canonical_tokens
canonical-eq ts us h =
    rounds-eq _ _ _ (omega arith) (omega arith) (retain_all-AllStripped (normalize_tokens ts))
      (retain_all-AllStripped (normalize_tokens us)) h

hash-of_eq : (v w : Version) → SameSource v w → cmp v w ≡ Ordering.eq → hash_input v ≡ hash_input w
unfolding cmp hash_input
hash-of_eq v w same h =
    ground (arith, canonical-eq v.tokens w.tokens, text_eq→eq v.raw w.raw, ap canonical_tokens)

eq_of-hash : (v w : Version) → hash_input v ≡ hash_input w → cmp v w ≡ Ordering.eq
unfolding cmp hash_input
eq_of-hash v w h = ground (arith, cmp_canonical_refl (canonical_tokens v.tokens))

-- Two versions that parsing or detection made are equal exactly when they feed the same input to
-- a hasher, as `HashMap` keys need.
pub cmp-eq_iff_hash :
    (re : Regexes) (s t : Text) (f g : Bool)
    → (cmp (parse_with_flag re s f) (parse_with_flag re t g) ≡ Ordering.eq)
      ↔ (hash_input (parse_with_flag re s f) ≡ hash_input (parse_with_flag re t g))
cmp-eq_iff_hash re s t f g =
    let v = parse_with_flag re s f in
    let w = parse_with_flag re t g in
    (hash-of_eq v w (parse-SameSource re (s, f) (t, g)), eq_of-hash v w)
