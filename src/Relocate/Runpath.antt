-- ===== src/Relocate/Runpath.antt =====
-- relocate.rs: the segments of a runpath.
use zapbrew.Base.{
  Text, bytes, text_eq, is_ascii_digit, Bool, true, false, ◌&&◌, ◌||◌, not, List, [], ◌∷◌, ◌++◌,
  Option, none, some, if◌then◌else◌, is_empty, any, all, split, join, strip_prefix,
  path_starts_with,
}

-- `str::starts_with` of a text.
unfoldable pub begins : Text → Text → Bool
unfolding strip_prefix
begins pattern s = elim (strip_prefix pattern s) [ none ↦ false | some rest ↦ true ]

-- `str::rfind`, as what stands before the last occurrence and behind it.
unfoldable pub split_last : Text → Text → Option (Text × Text)
unfolding strip_prefix
split_last pattern [] = elim (strip_prefix pattern []) [ none ↦ none | some rest ↦ some ([], rest) ]
split_last pattern (c ∷ cs) = elim (split_last pattern cs) [
  | some (before, rest) ↦ some (c ∷ before, rest)
  | none ↦ elim (strip_prefix pattern (c ∷ cs)) [ none ↦ none | some rest ↦ some ([], rest) ]
]

abbrev pub gcc_marker : Text
gcc_marker = bytes "/lib/gcc/"

unfoldable pub rewrite_gcc_lib : Text → Text
unfolding split_last is_ascii_digit
rewrite_gcc_lib segment = elim (split_last gcc_marker segment) [
  | none ↦ segment
  | some (before, tail) ↦
      if not (is_empty tail) && all is_ascii_digit tail
      then before ++ (gcc_marker ++ bytes "current")
      else segment
]

-- What the loop keeps.
unfoldable pub kept_segment : Text → Text → Text → Bool
unfolding path_starts_with begins
kept_segment new_prefix cellar raw =
    not (is_empty raw)
    && (path_starts_with raw new_prefix
        || path_starts_with raw cellar
        || begins (bytes "$ORIGIN") raw)

abbrev pub push_new : List Text → Text → List Text
push_new segments segment =
    if any (text_eq segment) segments then segments else segments ++ (segment ∷ [])

-- The loop over the raw segments.
unfoldable pub gather_segments : Text → Text → Bool → List Text → List Text → List Text
unfolding kept_segment rewrite_gcc_lib text_eq
gather_segments new_prefix cellar is_gcc segments [] = segments
gather_segments new_prefix cellar is_gcc segments (raw ∷ raws) =
    let later = λ (gathered : List Text). gather_segments new_prefix cellar is_gcc gathered raws in
    if kept_segment new_prefix cellar raw
    then later (push_new segments (if is_gcc then raw else rewrite_gcc_lib raw))
    else later segments

unfoldable pub runpath_segments : Text → Text → Text → Bool → List Text
unfolding gather_segments split text_eq
runpath_segments current new_prefix cellar is_gcc =
    push_new (gather_segments new_prefix cellar is_gcc [] (split b':' current))
      (new_prefix ++ bytes "/lib")

unfoldable pub compute_runpath : Text → Text → Text → Bool → Text
unfolding runpath_segments
compute_runpath current new_prefix cellar is_gcc =
    join b':' (runpath_segments current new_prefix cellar is_gcc)
