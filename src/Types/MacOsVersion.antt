-- ===== src/Types/MacOsVersion.antt =====
-- crates/zapbrew-types/src/bottle.rs: `MacOsVersion`, its symbol table, and the reading of a
-- numeric product version.
use zapbrew.Base.{
  ℕ, Text, Result, ok, err, bytes, text_eq, if◌then◌else◌, List, [], ◌∷◌, Bool, true, false, ◌&&◌,
  ◌||◌, not, Option, none, some, ◌==◌, is_empty, any, split, parse_u32, starts_with, ends_with,
  get_elem?, ltb, length,
}
use zapbrew.Types.Error.{TypeError, invalid_mac_os_version}

pub data MacOsVersion : Type 0 where
  catalina big_sur monterey ventura sonoma sequoia tahoe golden_gate : MacOsVersion

-- The position in the declaration, by which the derived `Ord` compares.
unfoldable pub discriminant : MacOsVersion → ℕ
discriminant catalina = 0
discriminant big_sur = 1
discriminant monterey = 2
discriminant ventura = 3
discriminant sonoma = 4
discriminant sequoia = 5
discriminant tahoe = 6
discriminant golden_gate = 7

abbrev pub all_versions : List MacOsVersion
all_versions = catalina ∷ big_sur ∷ monterey ∷ ventura ∷ sonoma ∷ sequoia ∷ tahoe ∷ golden_gate ∷ []

unfoldable pub as_str : MacOsVersion → Text
as_str catalina = bytes "catalina"
as_str big_sur = bytes "big_sur"
as_str monterey = bytes "monterey"
as_str ventura = bytes "ventura"
as_str sonoma = bytes "sonoma"
as_str sequoia = bytes "sequoia"
as_str tahoe = bytes "tahoe"
as_str golden_gate = bytes "golden_gate"

unfoldable pub from_str : Text → Result TypeError MacOsVersion
from_str s =
    if text_eq s (bytes "catalina")
    then ok catalina
    else if text_eq s (bytes "big_sur")
    then ok big_sur
    else if text_eq s (bytes "monterey")
    then ok monterey
    else if text_eq s (bytes "ventura")
    then ok ventura
    else if text_eq s (bytes "sonoma")
    then ok sonoma
    else if text_eq s (bytes "sequoia")
    then ok sequoia
    else if text_eq s (bytes "tahoe")
    then ok tahoe
    else if text_eq s (bytes "golden_gate")
    then ok golden_gate
    else err (invalid_mac_os_version s)

-- `u8::is_ascii_whitespace`
is_ascii_whitespace : ℕ → Bool
is_ascii_whitespace c = c == 32 || c == 9 || c == 10 || c == 12 || c == 13

-- A component that is there has to be a number.
abbrev checked_part : Option Text → Bool
checked_part none = true
checked_part (some p) = elim (parse_u32 p) [ none ↦ false | some n ↦ not (is_empty p) ]

abbrev from_minor : Option Text → Option MacOsVersion
from_minor none = none
from_minor (some minor_str) = elim (parse_u32 minor_str) [
  | none ↦ none
  | some n ↦ if n == 15 then some catalina else none
]

from_major : ℕ → Option Text → Option MacOsVersion
unfolding parse_u32
from_major major minor_str =
    if major == 10
    then from_minor minor_str
    else if major == 11
    then some big_sur
    else if major == 12
    then some monterey
    else if major == 13
    then some ventura
    else if major == 14
    then some sonoma
    else if major == 15
    then some sequoia
    else if major == 26
    then some tahoe
    else if major == 27
    then some golden_gate
    else none

-- `parts.next()` of the source, four times: the components by their position.
abbrev from_parts : List Text → Option MacOsVersion
from_parts parts = elim (get_elem? parts 0) [
  | none ↦ none
  | some major_str ↦ if is_empty major_str then none else elim (parse_u32 major_str) [
    | none ↦ none
    | some major ↦
        if checked_part (get_elem? parts 1)
          && checked_part (get_elem? parts 2)
          && ltb (length parts) 4
        then from_major major (get_elem? parts 1)
        else none
  ]
]

unfoldable pub from_product_version : Text → Option MacOsVersion
unfolding from_major is_ascii_whitespace parse_u32 split starts_with ends_with
from_product_version s =
    if is_empty s || any is_ascii_whitespace s
    then none
    else if starts_with b'.' s || ends_with b'.' s
    then none
    else from_parts (split b'.' s)
