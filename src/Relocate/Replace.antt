-- ===== src/Relocate/Replace.antt =====
-- relocate.rs: the substitution of placeholders, in texts and in the NUL slots of a binary.
use zapbrew.Base.{
  ℕ, zero, suc, ◌-◌, min, Text, bytes, decimal, Bool, true, false, ◌&&◌, ◌||◌, List, [], ◌∷◌, ◌++◌,
  map, Option, none, some, if◌then◌else◌, is_empty, keep, length, leb, ltb, ◌==◌, slice, drop,
  split, strip_prefix, Result, ok, err, ◌>>=◌,
}
use zapbrew.Relocate.Bytes.{zeros}

-- The error of `PourError` that this file makes.
pub data PourError : Type 0 where
  relocation : (path reason : Text) → PourError

-- Placeholders with their replacements, in the order in which they are tried.
abbrev pub Subs : Type 0
Subs = List (Text × Text)

-- The inner loop: the replacement of the first pattern that the input starts with, and what
-- follows.
unfoldable pub first_match : Subs → Text → Option (Text × Text)
unfolding strip_prefix
first_match [] input = none
first_match ((pattern, replacement) ∷ subs) input =
    let others = first_match subs input in
    if is_empty pattern
    then others
    else elim (strip_prefix pattern input) [ none ↦ others | some rest ↦ some (replacement, rest) ]

-- The outer loop on what is left of the input, by rounds.
unfoldable pub replace_loop : ℕ → Subs → Text → Text × Bool
unfolding first_match
replace_loop zero subs input = ([], false)
replace_loop (suc fuel) subs [] = ([], false)
replace_loop (suc fuel) subs (c ∷ cs) = elim (first_match subs (c ∷ cs)) [
  | some (replacement, rest) ↦
      let (out, changed) = replace_loop fuel subs rest in (replacement ++ out, true)
  | none ↦ let (out, changed) = replace_loop fuel subs cs in (c ∷ out, changed)
]

unfoldable pub replace_all : Text → Subs → Text × Bool
unfolding replace_loop
replace_all input subs = replace_loop (suc (length input)) subs input

abbrev pub too_long : ℕ → ℕ → Text
too_long slot needs =
    bytes "relocated string does not fit its "
    ++ (decimal slot ++ (bytes "-byte slot (needs " ++ (decimal needs ++ bytes ")")))

-- The NUL before every segment but the first.
abbrev pub separator : Bool → Text
separator first = if first then [] else 0 ∷ []

-- The loop over the segments; the text is what it appends.
unfoldable pub pad_segments : Subs → Text → Bool → List Text → Result PourError (Text × Bool)
unfolding replace_all zeros
pad_segments subs path first [] = ok ([], false)
pad_segments subs path first (segment ∷ rest) =
    let (replaced, segment_changed) = replace_all segment subs in
    let later = pad_segments subs path false rest in
    if ltb (length segment) (length replaced)
    then err (relocation path (too_long (length segment) (length replaced)))
    else (later >>= λ (out, changed). ok (
      separator first ++ (replaced ++ (zeros (length segment - length replaced) ++ out)),
      segment_changed || changed,
    ))

unfoldable pub nul_pad_span : Text → Subs → Text → Result PourError (Text × Bool)
unfolding pad_segments split
nul_pad_span span subs path = pad_segments subs path true (split 0 span)

abbrev pub Range : Type 0
Range = ℕ × ℕ

abbrev pub clamp : ℕ → Range → Range
clamp len (b, e) = (min b len, min e len)

-- `sort_unstable` on pairs of numbers: equal pairs cannot be told apart.
abbrev pub range_le : Range → Range → Bool
range_le (a, b) (c, d) = ltb a c || ((a == c) && leb b d)

unfoldable pub insert_range : Range → List Range → List Range
insert_range r [] = r ∷ []
insert_range r (s ∷ ss) =
    let later = insert_range r ss in if range_le r s then r ∷ s ∷ ss else s ∷ later

unfoldable pub sort_ranges : List Range → List Range
unfolding insert_range
sort_ranges [] = []
sort_ranges (r ∷ rs) = insert_range r (sort_ranges rs)

-- The loop over the protected ranges from `cursor` on; the text is what it appends.
unfoldable pub pad_ranges : Text → Subs → Text → ℕ → List Range → Result PourError (Text × Bool)
unfolding nul_pad_span slice
pad_ranges data_bytes subs path cursor [] = nul_pad_span (drop cursor data_bytes) subs path
pad_ranges data_bytes subs path cursor ((b, e) ∷ ranges) =
    let later = λ (from : ℕ). pad_ranges data_bytes subs path from ranges in
    if ltb b cursor
    then (if ltb cursor e
        then (later e >>= λ (out, changed). ok (slice data_bytes cursor e ++ out, changed))
        else later cursor)
    else (nul_pad_span (slice data_bytes cursor b) subs path >>= λ (padded, padded_changed).
        later e >>= λ (out, changed).
        ok (padded ++ (slice data_bytes b e ++ out), padded_changed || changed))

unfoldable pub binary_nul_pad : Text → Subs → List Range → Text → Result PourError (Text × Bool)
unfolding sort_ranges pad_ranges
binary_nul_pad data_bytes subs protected path =
    let clamped = map (clamp (length data_bytes)) protected in
    let ranges = keep (λ (r : Range). ltb r.0 r.1) clamped in
    pad_ranges data_bytes subs path 0 (sort_ranges ranges)
