-- ===== src/Version/Tokens.antt =====
-- version.rs: scanning a version string into tokens.
use zapbrew.Base.{
  ℕ, zero, suc, ◌+◌, Text, Bool, not, ◌&&◌, List, [], ◌∷◌, Option, none, some, if◌then◌else◌,
  length, is_empty, all, is_ascii_digit, skip_while, take_while, slice, ltb, ◌==◌, ◌≡◌, ◌≤◌, arith,
  refl, ap, inl, inr, Bool-cases,
}
use zapbrew.Version.Patterns.{
  Regexes, alpha_re, beta_re, pre_re, rc_re, patch_re, post_re, numeric_re,
}

pub data Token : Type 0 where
  string : Text → Token
  numeric : Text → Token
  alpha : (rev : Text) → Token
  beta : (rev : Text) → Token
  pre : (rev : Text) → Token
  rc : (rev : Text) → Token
  patch : (rev : Text) → Token
  post : (rev : Text) → Token

unfoldable pub extract_rev : Text → Text
unfolding skip_while take_while is_ascii_digit
extract_rev val = take_while is_ascii_digit (skip_while (λ c. not (is_ascii_digit c)) val)

unfoldable pub is_zero_digits : Text → Bool
is_zero_digits n = not (is_empty n) && all (λ b. b == b'0') n

-- `trim_start_matches('0')`; an empty result is the empty string either way.
unfoldable pub strip_leading_zeros : Text → Text
unfolding skip_while
strip_leading_zeros n = skip_while (λ c. c == b'0') n

module _ (re : Regexes) where
  unfoldable pub from_match : Text → Token
  unfolding extract_rev
  from_match val =
      if re.is_match alpha_re val
      then alpha (extract_rev val)
      else if re.is_match beta_re val
      then beta (extract_rev val)
      else if re.is_match rc_re val
      then rc (extract_rev val)
      else if re.is_match pre_re val
      then pre (extract_rev val)
      else if re.is_match patch_re val
      then patch (extract_rev val)
      else if re.is_match post_re val
      then post (extract_rev val)
      else if re.is_match numeric_re val
      then numeric val
      else string val

  -- The body of the loop, on what `find_at` returns: `break`, or a token and the next round.
  abbrev pub found : Text → Option (ℕ × ℕ) → (ℕ → List Token) → List Token
  found s none next = []
  found s (some (b, e)) next = from_match (slice s b e) ∷ next e

  -- The `while` loop of `parse_tokens`; the fuel is the number of rounds left.
  unfoldable pub scan_loop : ℕ → Text → ℕ → List Token
  scan_loop zero s idx = []
  scan_loop (suc fuel) s idx =
      let rest = λ (e : ℕ). scan_loop fuel s e in
      if ltb idx (length s) then found s (re.find_at s idx) rest else []

  -- Each round consumes a byte, so one round for each byte is enough.
  unfoldable pub parse_tokens : Text → List Token
  unfolding scan_loop
  parse_tokens s = scan_loop (length s) s 0

  -- More rounds than bytes left change nothing.
  pub scan_loop-fuel :
      (fuel : ℕ) (s : Text) (idx : ℕ)
      → length s ≤ fuel + idx
      → scan_loop fuel s idx ≡ scan_loop (suc fuel) s idx
  unfolding scan_loop
  scan_loop-fuel zero s idx h = ground arith
  scan_loop-fuel (suc fuel) s idx h = elim (Bool-cases (ltb idx (length s))) [
    | inl more ↦ rw more (after (λ k l. scan_loop-fuel fuel s k l) (re.find_at s idx) refl)
    | inr done ↦ rw done refl
  ]
    where
      after :
          ((k : ℕ) → length s ≤ fuel + k → scan_loop fuel s k ≡ scan_loop (suc fuel) s k)
          → (o : Option (ℕ × ℕ)) → re.find_at s idx ≡ o
          → found s o (scan_loop fuel s) ≡ found s o (scan_loop (suc fuel) s)
      after ih none e = refl
      after ih (some (b, k)) e =
          let (i, j, l) = re.find_at_bounds s idx b k e in
          ap (λ (r : List Token). from_match (slice s b k) ∷ r) (ih k (omega arith))
