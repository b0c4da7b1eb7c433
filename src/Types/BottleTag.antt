-- ===== src/Types/BottleTag.antt =====
-- crates/zapbrew-types/src/bottle.rs: `BottleTag`, its spelling, its parser, the host's tag, and
-- the bottle file record.
use zapbrew.Base.{
  Text, Result, ok, err, bytes, text_eq, strip_prefix, if◌then◌else◌, ◌++◌, Option, none, some,
  Bool, true, false, ◌&&◌, ◌||◌, ◌==◌,
}
use zapbrew.Types.Error.{TypeError, invalid_bottle_tag}
use zapbrew.Types.Arch
use zapbrew.Types.Arch.{Arch, x86_64, arm64}
use zapbrew.Types.MacOsVersion
use zapbrew.Types.MacOsVersion.{MacOsVersion, discriminant, from_product_version}

pub data BottleTag : Type 0 where
  linux : (arch : Arch) → BottleTag
  mac_os : (arch : Arch) (version : MacOsVersion) → BottleTag
  all : BottleTag

-- The `or_else` of `from_host`: the symbol name first, then the product version.
abbrev host_version : Text → Option MacOsVersion
host_version raw = elim (MacOsVersion.from_str raw) [
  | ok v ↦ some v
  | err e ↦ from_product_version raw
]

abbrev host_arch : Text → Option Arch
host_arch arch =
    if text_eq arch (bytes "x86_64")
    then some x86_64
    else if text_eq arch (bytes "arm64") || text_eq arch (bytes "aarch64")
    then some arm64
    else none

abbrev host_mac_os : Arch → Option Text → Option BottleTag
host_mac_os arch none = none
host_mac_os arch (some raw) = elim (host_version raw) [
  | none ↦ none
  | some version ↦ some (mac_os arch version)
]

unfoldable pub from_host : Text → Text → Option Text → Option BottleTag
from_host os arch macos_version = elim (host_arch arch) [
  | none ↦ none
  | some a ↦
      if text_eq os (bytes "linux")
      then some (linux a)
      else if text_eq os (bytes "macos") || text_eq os (bytes "darwin")
      then host_mac_os a macos_version
      else none
]

-- `Display`
unfoldable pub to_string : BottleTag → Text
unfolding Arch.as_str MacOsVersion.as_str
to_string all = bytes "all"
to_string (linux arch) = Arch.as_str arch ++ bytes "_linux"
to_string (mac_os x86_64 version) = MacOsVersion.as_str version
to_string (mac_os arm64 version) = bytes "arm64_" ++ MacOsVersion.as_str version

abbrev pub arm64_of : Text → Result TypeError MacOsVersion → Result TypeError BottleTag
arm64_of s (ok version) = ok (mac_os arm64 version)
arm64_of s (err e) = err (invalid_bottle_tag s)

abbrev pub from_arm64 : Text → Text → Result TypeError BottleTag
from_arm64 s system =
    if text_eq system (bytes "linux")
    then ok (linux arm64)
    else arm64_of s (MacOsVersion.from_str system)

abbrev pub bare_of : Text → Result TypeError MacOsVersion → Result TypeError BottleTag
bare_of s (ok version) = ok (mac_os x86_64 version)
bare_of s (err e) = err (invalid_bottle_tag s)

-- A bare tag: Intel macOS when the name is known.
abbrev pub from_bare : Text → Result TypeError BottleTag
from_bare s = bare_of s (MacOsVersion.from_str s)

-- The branches of `from_str`, on what is left of the tag behind each architecture's prefix.
abbrev pub from_stripped : Text → Option Text → Option Text → Result TypeError BottleTag
from_stripped s (some system) _ =
    if text_eq system (bytes "linux") then ok (linux x86_64) else err (invalid_bottle_tag s)
from_stripped s none (some system) = from_arm64 s system
from_stripped s none none = from_bare s

unfoldable pub from_str : Text → Result TypeError BottleTag
from_str s =
    if text_eq s (bytes "all")
    then ok all
    else from_stripped s (strip_prefix (bytes "x86_64_") s) (strip_prefix (bytes "arm64_") s)

-- The derived equality, by discriminant and fields.
unfoldable pub arch_eq : Arch → Arch → Bool
arch_eq x86_64 x86_64 = true
arch_eq arm64 arm64 = true
arch_eq _ _ = false

unfoldable pub tag_eq : BottleTag → BottleTag → Bool
unfolding arch_eq discriminant
tag_eq (linux a) (linux b) = arch_eq a b
tag_eq (mac_os a v) (mac_os b w) = arch_eq a b && discriminant v == discriminant w
tag_eq all all = true
tag_eq _ _ = false

pub record BottleFile : Type 0 where
  pub tag : BottleTag
  pub cellar : Text
  pub url : Text
  pub sha256 : Text
