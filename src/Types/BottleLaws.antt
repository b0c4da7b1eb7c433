-- ===== src/Types/BottleLaws.antt =====
-- Spelling and parsing of architectures, macOS names and bottle tags (bottle.rs).
use zapbrew.Base.{
  ℕ, zero, suc, Text, Result, ok, err, bytes, text_eq, text_eq→eq, strip_prefix,
  strip_prefix-eq-some, ◌++◌, Option, none, some, ◌≡◌, refl, arith, true, ap, Bool-cases, inl, inr,
}
use zapbrew.Types.Error.{TypeError}
use zapbrew.Types.Arch.{Arch, x86_64, arm64}
use zapbrew.Types.MacOsVersion
use zapbrew.Types.MacOsVersion.{
  MacOsVersion, catalina, big_sur, monterey, ventura, sonoma, sequoia, tahoe, golden_gate,
  discriminant,
}
use zapbrew.Types.BottleTag
use zapbrew.Types.BottleTag.{
  BottleTag, linux, mac_os, all, arch_eq, tag_eq, from_host, from_bare, from_arm64, bare_of,
  arm64_of, from_stripped,
}

-- Every macOS name parses back to its release.
pub from_str-as_str_version :
    (v : MacOsVersion) → MacOsVersion.from_str (MacOsVersion.as_str v) ≡ ok v
unfolding MacOsVersion.from_str MacOsVersion.as_str text_eq
from_str-as_str_version catalina = refl
from_str-as_str_version _ = refl

-- Every bottle tag parses back from its own spelling.
pub from_str-to_string_tag : (t : BottleTag) → BottleTag.from_str (BottleTag.to_string t) ≡ ok t
unfolding BottleTag.from_str BottleTag.to_string MacOsVersion.from_str text_eq strip_prefix
from_str-to_string_tag all = refl
from_str-to_string_tag (linux x86_64) = refl
from_str-to_string_tag (linux arm64) = refl
from_str-to_string_tag (mac_os x86_64 catalina) = refl
from_str-to_string_tag (mac_os x86_64 _) = refl
from_str-to_string_tag (mac_os arm64 catalina) = refl
from_str-to_string_tag (mac_os arm64 _) = refl

-- An accepted macOS name is the canonical one.
pub as_str-from_str_version :
    (s : Text) (v : MacOsVersion) → MacOsVersion.from_str s ≡ ok v → MacOsVersion.as_str v ≡ s
unfolding MacOsVersion.as_str MacOsVersion.from_str
as_str-from_str_version s v h = ground (
  arith,
  text_eq→eq s (bytes "catalina"),
  text_eq→eq s (bytes "big_sur"),
  text_eq→eq s (bytes "monterey"),
  text_eq→eq s (bytes "ventura"),
  text_eq→eq s (bytes "sonoma"),
  text_eq→eq s (bytes "sequoia"),
  text_eq→eq s (bytes "tahoe"),
  text_eq→eq s (bytes "golden_gate"),
)

from_bare-canonical : (s : Text) (t : BottleTag) → from_bare s ≡ ok t → BottleTag.to_string t ≡ s
unfolding BottleTag.to_string
from_bare-canonical s t h = go (MacOsVersion.from_str s) refl h
  where
    go :
        (r : Result TypeError MacOsVersion)
        → MacOsVersion.from_str s ≡ r
        → bare_of s r ≡ ok t
        → BottleTag.to_string t ≡ s
    go (ok v) e k = cc (k, as_str-from_str_version s v e)
    go (err x) e k = cc

from_arm64-canonical :
    (s system : Text) (t : BottleTag)
    → s ≡ bytes "arm64_" ++ system
    → from_arm64 s system ≡ ok t
    → BottleTag.to_string t ≡ s
unfolding BottleTag.to_string
from_arm64-canonical s system t split h = elim (Bool-cases (text_eq system (bytes "linux"))) [
  | inl yes_linux ↦ ground (arith, text_eq→eq system (bytes "linux"))
  | inr other ↦ go (MacOsVersion.from_str system) refl (rw other at h)
]
  where
    go :
        (r : Result TypeError MacOsVersion)
        → MacOsVersion.from_str system ≡ r
        → arm64_of s r ≡ ok t
        → BottleTag.to_string t ≡ s
    go (ok v) e k = cc (k, split, as_str-from_str_version system v e)
    go (err x) e k = cc

-- An accepted tag is spelled canonically: printing what was parsed gives the input back.
pub to_string-from_str :
    (s : Text) (t : BottleTag) → BottleTag.from_str s ≡ ok t → BottleTag.to_string t ≡ s
unfolding BottleTag.from_str BottleTag.to_string
to_string-from_str s t h = elim (Bool-cases (text_eq s (bytes "all"))) [
  | inl universal ↦ ground (arith, text_eq→eq s (bytes "all"))
  | inr specific ↦
      go (strip_prefix (bytes "x86_64_") s) (strip_prefix (bytes "arm64_") s) refl refl
        (rw specific at h)
]
  where
    go :
        (x a : Option Text)
        → strip_prefix (bytes "x86_64_") s ≡ x
        → strip_prefix (bytes "arm64_") s ≡ a
        → from_stripped s x a ≡ ok t
        → BottleTag.to_string t ≡ s
    go (some system) a ex ea k = ground (
      arith,
      text_eq→eq system (bytes "linux"),
      strip_prefix-eq-some (bytes "x86_64_") s system ex,
    )
    go none (some system) ex ea k =
        from_arm64-canonical s system t (strip_prefix-eq-some (bytes "arm64_") s system ea) k
    go none none ex ea k = from_bare-canonical s t k

-- The inverse of `discriminant` on the table.
abbrev of_discriminant : ℕ → MacOsVersion
of_discriminant zero = catalina
of_discriminant (suc zero) = big_sur
of_discriminant (suc (suc zero)) = monterey
of_discriminant (suc (suc (suc zero))) = ventura
of_discriminant (suc (suc (suc (suc zero)))) = sonoma
of_discriminant (suc (suc (suc (suc (suc zero))))) = sequoia
of_discriminant (suc (suc (suc (suc (suc (suc zero)))))) = tahoe
of_discriminant (suc (suc (suc (suc (suc (suc (suc n))))))) = golden_gate

of_discriminant-discriminant : (v : MacOsVersion) → of_discriminant (discriminant v) ≡ v
unfolding discriminant
of_discriminant-discriminant catalina = refl
of_discriminant-discriminant _ = refl

pub discriminant_injective : (v w : MacOsVersion) → discriminant v ≡ discriminant w → v ≡ w
discriminant_injective v w e =
    cc (of_discriminant-discriminant v, of_discriminant-discriminant w, ap of_discriminant e)

pub arch_eq→eq : (a b : Arch) → arch_eq a b ≡ true → a ≡ b
unfolding arch_eq
arch_eq→eq x86_64 x86_64 h = refl
arch_eq→eq x86_64 arm64 h = cc
arch_eq→eq arm64 x86_64 h = cc
arch_eq→eq arm64 arm64 h = refl

pub arch_eq_refl : (a : Arch) → arch_eq a a ≡ true
unfolding arch_eq
arch_eq_refl x86_64 = refl
arch_eq_refl arm64 = refl

pub tag_eq→eq : (t u : BottleTag) → tag_eq t u ≡ true → t ≡ u
unfolding tag_eq
tag_eq→eq (linux a) (linux b) h = cc (arch_eq→eq a b h)
tag_eq→eq (linux a) (mac_os b w) h = cc
tag_eq→eq (linux a) all h = cc
tag_eq→eq (mac_os a v) (linux b) h = cc
tag_eq→eq (mac_os a v) (mac_os b w) h = ground (arith, arch_eq→eq a b, discriminant_injective v w)
tag_eq→eq (mac_os a v) all h = cc
tag_eq→eq all (linux b) h = cc
tag_eq→eq all (mac_os b w) h = cc
tag_eq→eq all all h = refl

pub tag_eq_refl : (t : BottleTag) → tag_eq t t ≡ true
unfolding tag_eq
tag_eq_refl (linux a) = arch_eq_refl a
tag_eq_refl (mac_os a v) = ground (arith, arch_eq_refl a)
tag_eq_refl all = refl
