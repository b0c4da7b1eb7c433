-- ===== src/Types/FormulaName.antt =====
-- crates/zapbrew-types/src/name.rs: a formula name with an optional tap, kept as offsets into the
-- text that was given.
use zapbrew.Base.{
  ℕ, ◌+◌, ◌-◌, Text, Bool, not, ◌&&◌, ◌||◌, List, [], ◌∷◌, Option, none, some, Result, ok, err,
  if◌then◌else◌, is_empty, all, length, leb, ◌==◌, split, slice, drop, is_ascii_digit,
}
use zapbrew.Types.Error.{TypeError, invalid_formula_name}

pub record FormulaName : Type 0 where
  pub input : Text
  pub name_off : ℕ
  pub user_off : Option ℕ

unfoldable pub name : FormulaName → Text
name f = drop f.name_off f.input

abbrev pub tap_from : FormulaName → Option ℕ → Option (Text × Text)
tap_from f none = none
tap_from f (some user_off) =
    some (slice f.input 0 (user_off - 1), slice f.input user_off (f.name_off - 1))

unfoldable pub tap : FormulaName → Option (Text × Text)
tap f = tap_from f f.user_off

unfoldable pub is_name_char : ℕ → Bool
unfolding is_ascii_digit
is_name_char c =
    is_ascii_digit c
    || leb b'a' c && leb c b'z'
    || leb b'A' c && leb c b'Z'
    || c == b'_'
    || c == b'+'
    || c == b'-'
    || c == b'.'
    || c == b'@'

-- The two checks of the name segment, and the record.
abbrev pub checked : Text → Text → ℕ → Option ℕ → Result TypeError FormulaName
checked s name_seg name_off user_off =
    if is_empty name_seg || not (all is_name_char name_seg)
    then err (invalid_formula_name s)
    else ok (record { input = s; name_off = name_off; user_off = user_off })

-- The match on the segments: one, or three with a user and a repository.
abbrev pub from_segments : Text → List Text → Result TypeError FormulaName
from_segments s (first ∷ []) = checked s first 0 none
from_segments s (first ∷ repo ∷ name_seg ∷ []) =
    if not (is_empty first) && not (is_empty repo)
    then checked s name_seg (length first + 1 + length repo + 1) (some (length first + 1))
    else err (invalid_formula_name s)
from_segments s _ = err (invalid_formula_name s)

unfoldable pub from_str : Text → Result TypeError FormulaName
from_str s = from_segments s (split b'/' s)
