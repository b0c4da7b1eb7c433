-- ===== src/Relocate/Scans.antt =====
-- What `replace_all` computes, as a relation, and when it changes nothing.
use zapbrew.Base.{
  ℕ, zero, suc, ◌<◌, Text, Bool, true, false, [], ◌∷◌, ◌++◌, Option, none, some, length,
  length-append, strip_prefix, strip_prefix-eq-some, ◌≡◌, refl, ap, arith, inl, inr, Option-cases,
  ◌↔◌, ◌≢◌, ◌⊎◌, Bool-cases, ◌==◌,
}
use zapbrew.Relocate.Replace.{Subs, first_match, replace_loop, replace_all}

-- No pattern that is not empty starts the text.
abbrev pub NoneStarts : Subs → Text → Type 0
NoneStarts [] s = Unit
NoneStarts ((pattern, replacement) ∷ subs) s =
    (pattern ≢ [] → (rest : Text) → s ≢ pattern ++ rest) × NoneStarts subs s

-- Of the listed patterns that are not empty, the first one that starts the text has the
-- replacement, and `rest` follows it.
abbrev pub FirstListed : Subs → Text → Text → Text → Type 0
FirstListed [] s replacement rest = ⊥
FirstListed ((p, r) ∷ subs) s replacement rest =
    ((p ≢ []) × (s ≡ p ++ rest) × (r ≡ replacement))
    ⊎ ((p ≢ [] → (t : Text) → s ≢ p ++ t) × FirstListed subs s replacement rest)

-- From left to right: where a pattern starts, the replacement of the first such pattern, and else
-- the byte itself.
pub data Scans (subs : Subs) : Text → Text → Bool → Type 0 where
  finish : Scans subs [] [] false
  replaced :
      (replacement : Text) {s rest out : Text} {changed : Bool}
      → FirstListed subs s replacement rest
      → Scans subs rest out changed
      → Scans subs s (replacement ++ out) true
  copied :
      {s out : Text} {c : ℕ} {changed : Bool}
      → NoneStarts subs (c ∷ s)
      → Scans subs s out changed
      → Scans subs (c ∷ s) (c ∷ out) changed

strip_prefix-none : (p s rest : Text) → strip_prefix p s ≡ none → s ≢ p ++ rest
unfolding strip_prefix
strip_prefix-none [] s rest h = absurd cc
strip_prefix-none (p ∷ ps) [] rest h = λ e. cc
strip_prefix-none (p ∷ ps) (c ∷ cs) rest h = λ e. elim (Bool-cases (p == c)) [
  | inl same ↦ strip_prefix-none ps cs rest (rw same at h) (cons-inj e).1
  | inr other ↦ let byte = (cons-inj e).0 in absurd (ground arith)
]
  where
    cons-inj : c ∷ cs ≡ (p ∷ ps) ++ rest → (c ≡ p) × (cs ≡ ps ++ rest)
    cons-inj e = (cc, cc)

-- The inner loop finds the first listed pattern that starts the input, if there is one.
abbrev Found : Subs → Text → Option (Text × Text) → Type 0
Found subs s none = NoneStarts subs s
Found subs s (some (replacement, rest)) = FirstListed subs s replacement rest

Found-later :
    (p r : Text) (subs : Subs) (s : Text) (o : Option (Text × Text))
    → (p ≢ [] → (rest : Text) → s ≢ p ++ rest)
    → Found subs s o
    → Found ((p, r) ∷ subs) s o
Found-later p r subs s none miss h = (miss, h)
Found-later p r subs s (some (replacement, rest)) miss h = inr (miss, h)

first_match-Found : (subs : Subs) (s : Text) → Found subs s (first_match subs s)
unfolding first_match
first_match-Found [] s = tt
first_match-Found (([], r) ∷ subs) s =
    Found-later [] r subs s (first_match subs s) (λ full. absurd (full refl))
      (first_match-Found subs s)
first_match-Found ((p ∷ ps, r) ∷ subs) s = elim (Option-cases (strip_prefix (p ∷ ps) s)) [
  | inl miss ↦ rw miss (
      Found-later (p ∷ ps) r subs s (first_match subs s)
        (λ full rest. strip_prefix-none (p ∷ ps) s rest miss) (first_match-Found subs s))
  | inr (rest, hit) ↦ rw hit (inl ((λ e. cc), strip_prefix-eq-some (p ∷ ps) s rest hit, refl))
]

-- A match consumes a byte at least.
FirstListed-shorter :
    (subs : Subs) (s replacement rest : Text)
    → FirstListed subs s replacement rest
    → length rest < length s
FirstListed-shorter [] s replacement rest h = absurd h
FirstListed-shorter (([], r) ∷ subs) s replacement rest (inl (full, whole, same)) =
    absurd (full refl)
FirstListed-shorter ((p ∷ ps, r) ∷ subs) s replacement rest (inl (full, whole, same)) =
    let sizes = length-append (p ∷ ps) rest in rw whole (omega (arith, sizes))
FirstListed-shorter ((p, r) ∷ subs) s replacement rest (inr (miss, h)) =
    FirstListed-shorter subs s replacement rest h

FirstListed-NoneStarts :
    (subs : Subs) (s replacement rest : Text)
    → FirstListed subs s replacement rest
    → ¬ NoneStarts subs s
FirstListed-NoneStarts [] s replacement rest h k = h
FirstListed-NoneStarts ((p, r) ∷ subs) s replacement rest (inl (full, whole, same)) (miss, k) =
    miss full rest whole
FirstListed-NoneStarts ((p, r) ∷ subs) s replacement rest (inr (miss, h)) (miss', k) =
    FirstListed-NoneStarts subs s replacement rest h k

replace_loop-Scans :
    (fuel : ℕ) (subs : Subs) (s : Text)
    → length s < fuel
    → Scans subs s (replace_loop fuel subs s).0 (replace_loop fuel subs s).1
unfolding replace_loop
replace_loop-Scans zero subs s h = absurd (omega arith)
replace_loop-Scans (suc fuel) subs [] h = finish
replace_loop-Scans (suc fuel) subs (c ∷ cs) h =
    step (λ rest less. replace_loop-Scans fuel subs rest less) (first_match subs (c ∷ cs)) refl
      (first_match-Found subs (c ∷ cs))
  where
    step :
        ((rest : Text)
          → length rest < fuel
          → Scans subs rest (replace_loop fuel subs rest).0 (replace_loop fuel subs rest).1)
        → (o : Option (Text × Text)) → first_match subs (c ∷ cs) ≡ o
        → Found subs (c ∷ cs) o
        → Scans subs
            (c ∷ cs)
            (replace_loop (suc fuel) subs (c ∷ cs)).0
            (replace_loop (suc fuel) subs (c ∷ cs)).1
    step ih none miss f = rw (miss, replace_loop) (copied f (ih cs (omega arith)))
    step ih (some (r, rest)) hit f =
        let shorter = FirstListed-shorter subs (c ∷ cs) r rest f in
        rw (hit, replace_loop) (replaced r f (ih rest (omega arith)))

-- For every input `replace_all` ends, and its output and its change flag are those of the scan from
-- left to right: at each place, the first listed pattern that is not empty and starts there is
-- replaced by its replacement, and where none starts the byte is copied.
pub replace_all-Scans :
    (input : Text) (subs : Subs)
    → Scans subs input (replace_all input subs).0 (replace_all input subs).1
unfolding replace_all
replace_all-Scans input subs = replace_loop-Scans (suc (length input)) subs input (omega arith)

-- No pattern that is not empty starts anywhere in the text.
abbrev pub Unmatched : Subs → Text → Type 0
Unmatched subs [] = Unit
Unmatched subs (c ∷ cs) = NoneStarts subs (c ∷ cs) × Unmatched subs cs

Scans-unchanged :
    (subs : Subs) {s out : Text} {b : Bool}
    → Scans subs s out b
    → b ≡ false
    → (out ≡ s) × Unmatched subs s
Scans-unchanged subs finish e = (refl, tt)
Scans-unchanged subs (replaced replacement hit rest) e = cc
Scans-unchanged subs (copied {s} {out} {c} miss rest) e =
    let (same, none_left) = Scans-unchanged subs rest e in
    (ap (λ (r : Text). c ∷ r) same, (miss, none_left))

Scans-Unmatched :
    (subs : Subs) {s out : Text} {b : Bool} → Scans subs s out b → Unmatched subs s → b ≡ false
Scans-Unmatched subs finish h = refl
Scans-Unmatched subs (replaced replacement {s = []} hit rest) h =
    let shorter = FirstListed-shorter subs [] _ _ hit in absurd (omega arith)
Scans-Unmatched subs (replaced replacement {s = c ∷ cs} hit rest) (miss, h) =
    absurd (FirstListed-NoneStarts subs (c ∷ cs) _ _ hit miss)
Scans-Unmatched subs (copied miss rest) (miss', h) = Scans-Unmatched subs rest h

-- `replace_all` reports no change exactly when no pattern that is not empty stands anywhere in the
-- input, and then it returns the input.
pub replace_all-unchanged :
    (input : Text) (subs : Subs)
    → (((replace_all input subs).1 ≡ false) ↔ Unmatched subs input)
      × ((replace_all input subs).1 ≡ false → (replace_all input subs).0 ≡ input)
replace_all-unchanged input subs =
    let scan = replace_all-Scans input subs in
    (
      (λ e. (Scans-unchanged subs scan e).1, λ h. Scans-Unmatched subs scan h),
      λ e. (Scans-unchanged subs scan e).0,
    )
