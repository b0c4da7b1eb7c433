-- ===== src/Relocate/Plan.antt =====
-- relocate.rs: the plan for one file, and for all of them before any is written.
use zapbrew.Base.{
  ℕ, min, Text, bytes, text_eq, Bool, true, false, ◌&&◌, ◌||◌, not, List, [], ◌∷◌, ◌++◌, Option,
  none, some, if◌then◌else◌, is_empty, any, get_last?, length, ltb, ◌==◌, take, Result, ok, err,
  ◌>>=◌, Component, components,
}
use zapbrew.Types.BottleTag.{BottleTag, linux, mac_os}
use zapbrew.Relocate.Replace.{Subs, Range, PourError, relocation, replace_all, binary_nul_pad}
use zapbrew.Relocate.Elf.{elf_linkage_regions}
use zapbrew.Relocate.Runpath.{begins, split_last}
use zapbrew.Relocate.Rewrite.{elf_relocate}
use zapbrew.Relocate.Macho.{has_thin_macho_magic, macho_relocate, macho_linkage_regions}

-- The fields of `Env` that relocation reads.
pub record Env : Type 0 where
  pub prefix : Text
  pub cellar : Text
  pub repository : Text
  pub library : Text
  pub bottle_tag : BottleTag

abbrev pub is_macos : BottleTag → Bool
is_macos (linux arch) = false
is_macos (mac_os arch version) = true
is_macos BottleTag.all = false

abbrev pub java_home : Env → Text
java_home env =
    env.prefix
    ++ (if is_macos env.bottle_tag
        then bytes "/opt/openjdk/libexec/openjdk.jdk/Contents/Home"
        else bytes "/opt/openjdk/libexec")

-- A stable sort, by the length of the pattern, longest first.
unfoldable pub insert_longest : Text × Text → Subs → Subs
insert_longest s [] = s ∷ []
insert_longest (p, r) ((q, t) ∷ subs) =
    let later = insert_longest (p, r) subs in
    if ltb (length p) (length q) then (q, t) ∷ later else (p, r) ∷ (q, t) ∷ subs

unfoldable pub sort_longest : Subs → Subs
unfolding insert_longest
sort_longest [] = []
sort_longest (s ∷ subs) = insert_longest s (sort_longest subs)

unfoldable pub placeholder_subs : Env → Subs
unfolding sort_longest
placeholder_subs env = sort_longest (
    (bytes "@@HOMEBREW_PREFIX@@", env.prefix)
    ∷ (bytes "@@HOMEBREW_CELLAR@@", env.cellar)
    ∷ (bytes "@@HOMEBREW_REPOSITORY@@", env.repository)
    ∷ (bytes "@@HOMEBREW_LIBRARY@@", env.library)
    ∷ (bytes "@@HOMEBREW_PERL@@", env.prefix ++ bytes "/opt/perl/bin/perl")
    ∷ (bytes "@@HOMEBREW_JAVA@@", java_home env)
    ∷ [])

abbrev pub last_name : Option Component → Option Text
last_name (some (Component.normal name)) = some name
last_name _ = none

-- `Path::extension`: what stands behind the last dot, unless nothing stands before it.
unfoldable pub extension : Text → Option Text
unfolding components split_last
extension path = elim (last_name (get_last? (components path))) [
  | none ↦ none
  | some name ↦ elim (split_last (bytes ".") name) [
    | none ↦ none
    | some (before, behind) ↦ if is_empty before then none else some behind
  ]
]

abbrev pub is_libtool : Option Text → Bool
is_libtool none = false
is_libtool (some e) = text_eq e (bytes "la") || text_eq e (bytes "lai")

unfoldable pub is_text_candidate : Text → Text → Bool
unfolding extension text_eq
is_text_candidate path content =
    if is_libtool (extension path)
    then true
    else not (any (λ (b : ℕ). b == 0) (take (min (length content) 8192) content))

unfoldable pub is_glibc : Text → Bool
unfolding begins text_eq
is_glibc name = text_eq name (bytes "glibc") || begins (bytes "glibc@") name

unfoldable pub is_gcc : Text → Bool
unfolding begins text_eq
is_gcc name = text_eq name (bytes "gcc") || begins (bytes "gcc@") name

-- What relocation tells apart in the object crate's `BinaryFormat`.
pub data BinaryFormat : Type 0 where
  elf mach_o : BinaryFormat
  other_format : ℕ → BinaryFormat

abbrev pub format_eq : BinaryFormat → BinaryFormat → Bool
format_eq elf elf = true
format_eq mach_o mach_o = true
format_eq (other_format m) (other_format n) = m == n
format_eq _ _ = false

abbrev pub is_elf : Option BinaryFormat → Bool
is_elf none = false
is_elf (some f) = format_eq f elf

abbrev pub is_mach_o : Option BinaryFormat → Bool
is_mach_o none = false
is_mach_o (some f) = format_eq f mach_o

-- `map_err` into the error of the file.
abbrev pub at_path {ℓ} : {A : Type ℓ} → Text → Result Text A → Result PourError A
at_path path (ok a) = ok a
at_path path (err reason) = err (relocation path reason)

-- Bytes past the original length belong to the structured pass.
abbrev pub appended : Text → Text → List Range
appended original buf =
    if ltb (length original) (length buf) then (length original, length buf) ∷ [] else []

-- What the plan for a file knows of the keg.
pub record Target : Type 0 where
  pub subs : Subs
  pub new_prefix : Text
  pub cellar : Text
  pub is_glibc : Bool
  pub is_gcc : Bool
  pub ld_so_readable : Bool

-- `String::from_utf8_lossy` and the parser of the object crate.
module _ (lossy : Text → Text) (object_format : Text → Option BinaryFormat) where
  unfoldable pub reparse_matches : Text → Option BinaryFormat → Text → Result PourError Bool
  reparse_matches content none path = ok true
  reparse_matches content (some want) path = elim (object_format content) [
    | some actual ↦
        if format_eq actual want
        then ok true
        else err (relocation path (bytes "relocated binary failed to reparse"))
    | none ↦ err (relocation path (bytes "relocated binary failed to reparse"))
  ]

  abbrev pub is_mach_o_image : Option BinaryFormat → Text → Bool
  is_mach_o_image format original = is_mach_o format || has_thin_macho_magic original

  -- The structured pass: the bytes, whether they changed, and the regions it owns.
  unfoldable pub structured_pass :
      Target → Option BinaryFormat → Text → Result Text ((Text × Bool) × List Range)
  unfolding elf_relocate elf_linkage_regions macho_relocate macho_linkage_regions
      has_thin_macho_magic
  structured_pass t format original =
      if is_elf format && not t.is_glibc
      then (elf_relocate lossy original original t.subs t.new_prefix t.cellar t.is_gcc
            t.ld_so_readable
          >>= λ out. ok (out, elf_linkage_regions original))
      else if is_mach_o_image format original
      then (macho_relocate lossy original original t.subs t.cellar t.new_prefix >>= λ out.
          ok (out, macho_linkage_regions original))
      else ok ((original, false), [])

  unfoldable pub relocate_binary : Target → Text → Text → Result PourError (Option (Text × Bool))
  unfolding structured_pass binary_nul_pad reparse_matches has_thin_macho_magic
  relocate_binary t original path =
      let format = object_format original in
      at_path path (structured_pass t format original) >>= λ ((buf, structured_changed), regions).
      binary_nul_pad buf t.subs (regions ++ appended original buf) path
      >>= λ (padded, generic_changed).
          let changed = structured_changed || generic_changed in
          if changed
          then (reparse_matches padded format path >>= λ matches.
              ok (some (padded, is_mach_o_image format original && changed)))
          else ok none

  unfoldable pub plan_file : Target → Text → Text → Result PourError (Option (Text × Bool))
  unfolding is_text_candidate replace_all relocate_binary
  plan_file t original path =
      if is_text_candidate path original
      then (let (rewritten, changed) = replace_all original t.subs in
          ok (if changed then some (rewritten, false) else none))
      else relocate_binary t original path
