-- ===== src/Relocate/Bytes.antt =====
-- relocate.rs: reads and writes of numbers in a buffer, with their checks of bounds and overflow.
use zapbrew.Base.{
  ℕ, zero, suc, ◌+◌, ◌-◌, ◌*◌, ◌/◌, ◌%◌, ◌^◌, Text, bytes, Bool, ◌&&◌, [], ◌∷◌, Option, none, some,
  if◌then◌else◌, length, leb, ltb, ◌==◌, slice, Result, ok, err, ok_or, ◌>>=◌,
}
use mathlib.Core.List.{reverse}

abbrev pub u64_mod : ℕ
u64_mod = 2 ^ 64

-- `checked_add` and `checked_mul` of `u64` and of a 64-bit `usize`.
unfoldable pub checked_add : ℕ → ℕ → Option ℕ
checked_add a b = if ltb (a + b) u64_mod then some (a + b) else none

unfoldable pub checked_mul : ℕ → ℕ → Option ℕ
checked_mul a b = if ltb (a * b) u64_mod then some (a * b) else none

-- `checked_sub`
unfoldable pub checked_sub : ℕ → ℕ → Option ℕ
checked_sub a b = if leb b a then some (a - b) else none

-- `slice.get(start..end)`
unfoldable pub get_range : Text → ℕ → ℕ → Option Text
unfolding slice
get_range buf b e = if leb b e && leb e (length buf) then some (slice buf b e) else none

-- `to_le_bytes` and `to_be_bytes` of a number of `k` bytes.
unfoldable pub le_bytes : ℕ → ℕ → Text
le_bytes zero v = []
le_bytes (suc k) v = (v % 256) ∷ le_bytes k (v / 256)

unfoldable pub to_bytes : Bool → ℕ → ℕ → Text
unfolding le_bytes
to_bytes little k v = if little then le_bytes k v else reverse (le_bytes k v)

-- `from_le_bytes` and `from_be_bytes`
unfoldable pub from_le : Text → ℕ
from_le [] = 0
from_le (b ∷ bs) = b + 256 * from_le bs

unfoldable pub from_bytes : Bool → Text → ℕ
unfolding from_le
from_bytes little bs = if little then from_le bs else from_le (reverse bs)

-- The common body of `rd_u16`, `rd_u32` and `rd_u64`.
unfoldable pub rd_uint : ℕ → Text → ℕ → Bool → Option ℕ
unfolding checked_add get_range from_bytes
rd_uint k buf offset little = elim (checked_add offset k) [
  | none ↦ none
  | some end ↦ elim (get_range buf offset end) [
    | none ↦ none
    | some bs ↦ some (from_bytes little bs)
  ]
]

abbrev pub rd_u16 : Text → ℕ → Bool → Option ℕ
rd_u16 = rd_uint 2

abbrev pub rd_u32 : Text → ℕ → Bool → Option ℕ
rd_u32 = rd_uint 4

abbrev pub rd_u64 : Text → ℕ → Bool → Option ℕ
rd_u64 = rd_uint 8

-- `copy_from_slice` into the bytes from an offset on.
unfoldable pub over_head : Text → Text → Text
over_head [] buf = buf
over_head (b ∷ bs) [] = []
over_head (b ∷ bs) (c ∷ buf) = b ∷ over_head bs buf

unfoldable pub overwrite : Text → ℕ → Text → Text
unfolding over_head
overwrite buf zero bs = over_head bs buf
overwrite [] (suc o) bs = []
overwrite (c ∷ buf) (suc o) bs = c ∷ overwrite buf o bs

abbrev pub range_error : Text
range_error = bytes "write range outside file"

unfoldable pub write_bytes : Text → ℕ → Text → Result Text Text
unfolding checked_add overwrite
write_bytes buf offset bs = ok_or (checked_add offset (length bs)) range_error >>= λ end.
    if leb end (length buf) then ok (overwrite buf offset bs) else err range_error

unfoldable pub zeros : ℕ → Text
zeros zero = []
zeros (suc n) = 0 ∷ zeros n

unfoldable pub zero_range : Text → ℕ → ℕ → Result Text Text
unfolding checked_add overwrite zeros
zero_range buf offset len = ok_or (checked_add offset len) range_error >>= λ end.
    if leb end (length buf) then ok (overwrite buf offset (zeros len)) else err range_error

-- The common body of `write_u16`, `write_u32` and `write_u64`.
unfoldable pub write_uint : ℕ → Text → ℕ → Bool → ℕ → Result Text Text
unfolding to_bytes write_bytes
write_uint k buf offset little value = write_bytes buf offset (to_bytes little k value)

abbrev pub write_u16 : Text → ℕ → Bool → ℕ → Result Text Text
write_u16 = write_uint 2

abbrev pub write_u32 : Text → ℕ → Bool → ℕ → Result Text Text
write_u32 = write_uint 4

abbrev pub write_u64 : Text → ℕ → Bool → ℕ → Result Text Text
write_u64 = write_uint 8

-- `div_ceil` and the checked product.
unfoldable pub round_up : ℕ → ℕ → Option ℕ
unfolding checked_mul
round_up value align =
    if align == 0 then some value else checked_mul ((value + (align - 1)) / align) align

-- The bytes up to the first NUL.
unfoldable pub cstr : Text → Text
cstr [] = []
cstr (b ∷ bs) = let rest = cstr bs in if b == 0 then [] else b ∷ rest
