-- ===== src/Types/Tests.antt =====
-- Bottle tags on concrete texts.
use zapbrew.Base.{
  ◌↔◌, Text, bytes, ok, some, ◌≡◌, refl, text_eq, strip_prefix, split, starts_with, ends_with,
  parse_u32, ℕ, zero, suc, [], ◌∷◌, ◌≢◌, all, true, length, is_ascii_digit,
}
use zapbrew.Types.FormulaName
use zapbrew.Types.FormulaName.{FormulaName, is_name_char}
use zapbrew.Types.NameParts.{IsSpelled, from_str-IsSpelled}
use zapbrew.Types.Checksum
use zapbrew.Types.Checksum.{is_ascii_hexdigit, to_ascii_lowercase}
use zapbrew.Types.Arch.{arm64}
use zapbrew.Types.MacOsVersion
use zapbrew.Types.MacOsVersion.{sonoma, catalina, from_product_version}
use zapbrew.Types.BottleTag.{mac_os, from_str, from_host, to_string}
use zapbrew.Types.BottleLaws.{from_str-to_string_tag, to_string-from_str}

parsed : from_str (bytes "arm64_sonoma") ≡ ok (mac_os arm64 sonoma)
unfolding from_str text_eq strip_prefix MacOsVersion.from_str
parsed = refl

detected :
    from_host (bytes "darwin") (bytes "aarch64") (some (bytes "14.6.1"))
    ≡ some (mac_os arm64 sonoma)
unfolding from_host text_eq MacOsVersion.from_str from_product_version split starts_with ends_with
    parse_u32
detected = refl

from_str-to_string_tag_example :
    from_str (to_string (mac_os arm64 sonoma)) ≡ ok (mac_os arm64 sonoma)
from_str-to_string_tag_example = from_str-to_string_tag (mac_os arm64 sonoma)

to_string-from_str_example : to_string (mac_os arm64 sonoma) ≡ bytes "arm64_sonoma"
to_string-from_str_example = to_string-from_str (bytes "arm64_sonoma") (mac_os arm64 sonoma) parsed

abbrev qualified : Text
qualified = bytes "homebrew/core/jq"

abbrev jq : FormulaName
jq = record { input = qualified; name_off = 14; user_off = some 9 }

accepted : FormulaName.from_str qualified ≡ ok jq
unfolding FormulaName.from_str split is_name_char is_ascii_digit
accepted = refl

from_str-IsSpelled_example :
    (FormulaName.name jq ≢ [])
    × (all is_name_char (FormulaName.name jq) ≡ true)
    × IsSpelled qualified jq
from_str-IsSpelled_example = from_str-IsSpelled qualified jq accepted

abbrev digest : ℕ → Text
digest zero = []
digest (suc n) = b'a' ∷ digest n

abbrev capitals : ℕ → Text
capitals zero = []
capitals (suc n) = b'A' ∷ capitals n

from_str_canonical_example :
    ((Checksum.from_str (capitals 64) ≡ ok (digest 64))
      ↔ ((length (capitals 64) ≡ 64) × Checksum.Digest (capitals 64) (digest 64)))
    × (Checksum.from_str (capitals 64) ≡ ok (digest 64)
        → (Checksum.from_str (digest 64) ≡ ok (digest 64)) × (length (digest 64) ≡ 64))
from_str_canonical_example = Checksum.from_str_canonical (capitals 64) (digest 64)
