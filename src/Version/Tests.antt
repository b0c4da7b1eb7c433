-- ===== src/Version/Tests.antt =====
-- Versions on concrete texts.
use zapbrew.Base.{
  ℕ, Text, bytes, true, false, [], ◌∷◌, ◌≡◌, refl, Ordering, ok, ◌↔◌, IsOrder, arith, slice,
  compare, u32_mod, ◌<◌, ◌≢◌, is_ascii_digit, rsplit_once, parse_u32,
}
use zapbrew.Version.Tokens.{Token, scan_loop, scan_loop-fuel, is_zero_digits, from_match}
use zapbrew.Version.Canonical.{canonical_tokens, cmp_digit_strings, cmp_canonical}
use zapbrew.Version.Digits.{value, cmp_digit_strings-value}
use zapbrew.Version.{Version, parse, parse_with_flag, cmp, hash_input}
use zapbrew.Version.Order.{Source, cmp-IsOrder}
use zapbrew.Version.Equality.{cmp-eq_iff_hash}
use zapbrew.Version.Zeros.{
  canonical_tokens-trailing_zero, ZerosInside, canonical_tokens-ZerosInside,
}
use zapbrew.Version.Tokens.{parse_tokens}
use zapbrew.Version.Package.{
  from_str, to_string, cmp_pkg, made, cmp_pkg-IsOrder, split_revision, PkgVersion, ByRevision,
}
use zapbrew.Version.PackageText.{
  from_str-to_string, from_str-to_string_unrevised, from_str-accepts, Made, Splits,
  split_revision-none,
}
use zapbrew.Version.Sample.{scanner, matches, finder}

abbrev version : Text → Version
version s = parse scanner s

order : Text → Text → Ordering
unfolding cmp parse parse_tokens from_match slice canonical_tokens cmp_canonical matches finder
order s t = cmp (version s) (version t)

newer : order (bytes "1.10") (bytes "1.9.3") ≡ Ordering.gt
unfolding order
newer = refl

prerelease : order (bytes "2.0rc1") (bytes "2.0") ≡ Ordering.lt
unfolding order
prerelease = refl

erlang : order (bytes "R14B") (bytes "R14B01") ≡ Ordering.lt
unfolding order
erlang = refl

zero_inside : order (bytes "1.0.2") (bytes "1.2") ≡ Ordering.lt
unfolding order
zero_inside = refl

-- A pre-release, its release, and a later patch, as texts with the detection flag.
cmp-IsOrder_example :
    IsOrder
      (λ (s t : Source). cmp (parse_with_flag scanner s.0 s.1) (parse_with_flag scanner t.0 t.1))
cmp-IsOrder_example = cmp-IsOrder scanner

cmp-eq_iff_hash_example :
    (cmp
        (parse_with_flag scanner (bytes "1.2") false)
        (parse_with_flag scanner (bytes "1.2.0") true)
      ≡ Ordering.eq)
    ↔ (hash_input (parse_with_flag scanner (bytes "1.2") false)
        ≡ hash_input (parse_with_flag scanner (bytes "1.2.0") true))
cmp-eq_iff_hash_example = cmp-eq_iff_hash scanner (bytes "1.2") (bytes "1.2.0") false true

cmp_digit_strings-value_example :
    cmp_digit_strings (bytes "0012") (bytes "9")
    ≡ compare (value (bytes "0012")) (value (bytes "9"))
unfolding is_ascii_digit
cmp_digit_strings-value_example = cmp_digit_strings-value (bytes "0012") (bytes "9") refl refl

canonical_tokens-trailing_zero_example :
    canonical_tokens (Token.numeric (bytes "1") ∷ Token.numeric (bytes "00") ∷ [])
    ≡ canonical_tokens (Token.numeric (bytes "1") ∷ [])
unfolding is_zero_digits
canonical_tokens-trailing_zero_example =
    canonical_tokens-trailing_zero (Token.numeric (bytes "1") ∷ []) (bytes "00") refl refl

canonical_tokens-ZerosInside_example :
    ZerosInside (canonical_tokens (parse_tokens scanner (bytes "1.0.2")))
canonical_tokens-ZerosInside_example = canonical_tokens-ZerosInside scanner (bytes "1.0.2")

scan_loop-fuel_example : scan_loop scanner 3 (bytes "1.2") 0 ≡ scan_loop scanner 4 (bytes "1.2") 0
scan_loop-fuel_example = scan_loop-fuel scanner 3 (bytes "1.2") 0 (omega arith)

cmp_pkg-IsOrder_example :
    IsOrder (λ (p q : Source × ℕ). cmp_pkg (made scanner p) (made scanner q))
    × ((p q : PkgVersion) → ByRevision p q)
cmp_pkg-IsOrder_example = cmp_pkg-IsOrder scanner

from_str-to_string_example :
    from_str scanner (to_string (record { version = parse scanner (bytes "1.8"); revision = 2 }))
    ≡ ok (record { version = parse scanner (bytes "1.8"); revision = 2 })
from_str-to_string_example =
    from_str-to_string scanner b'1' (bytes ".8") 2 (omega arith) (omega arith)

not_revised : (prefix suffix : Text) → ¬ Splits (bytes "1_b") prefix suffix
unfolding split_revision rsplit_once is_ascii_digit
not_revised prefix suffix = split_revision-none (bytes "1_b") prefix suffix refl

from_str-to_string_unrevised_example :
    from_str scanner (to_string (record { version = parse scanner (bytes "1_b"); revision = 0 }))
    ≡ ok (record { version = parse scanner (bytes "1_b"); revision = 0 })
from_str-to_string_unrevised_example =
    from_str-to_string_unrevised scanner b'1' (bytes "_b") not_revised

from_str-accepts_example :
    (bytes "1.8_2" ≢ [])
    × (2 < u32_mod)
    × Made scanner (bytes "1.8_2") (record { version = parse scanner (bytes "1.8"); revision = 2 })
unfolding from_str split_revision rsplit_once is_ascii_digit parse_u32
from_str-accepts_example =
    from_str-accepts scanner (bytes "1.8_2")
      (record { version = parse scanner (bytes "1.8"); revision = 2 }) refl
