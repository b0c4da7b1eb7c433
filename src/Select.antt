-- ===== src/Select.antt =====
-- crates/zapbrew-net/src/select.rs: which bottle file serves a host. The environment enters by its
-- bottle tag and the formula name by its text, the only parts that the function reads.
pub mod Preference
pub mod Choice
mod Tests
use zapbrew.Base.{
  Text, Result, ok, err, List, [], ◌∷◌, Option, none, some, find, leb, if◌then◌else◌,
}
use zapbrew.Types.Arch.{Arch}
use zapbrew.Types.MacOsVersion.{MacOsVersion, discriminant, all_versions}
use zapbrew.Types.BottleTag.{BottleTag, BottleFile, linux, mac_os, all, tag_eq}
use mathlib.Core.List.{reverse}

pub data NetError : Type 0 where
  no_bottle : (name : Text) (tag : BottleTag) → NetError

abbrev pub find_tag : List BottleFile → BottleTag → Option BottleFile
find_tag files want = find (λ f. tag_eq f.tag want) files

-- The loop of `select_older_macos` over the releases, newest first.
pub older_loop : List BottleFile → Arch → MacOsVersion → List MacOsVersion → Option BottleFile
older_loop files arch host [] = none
older_loop files arch host (candidate ∷ rest) =
    let later = older_loop files arch host rest in
    if leb (discriminant host) (discriminant candidate)
    then later
    else elim (find_tag files (mac_os arch candidate)) [ some file ↦ some file | none ↦ later ]

pub select_older_macos : List BottleFile → Arch → MacOsVersion → Option BottleFile
unfolding older_loop
select_older_macos files arch host = older_loop files arch host (reverse all_versions)

abbrev pub older_for : List BottleFile → BottleTag → Option BottleFile
older_for files (mac_os arch version) = select_older_macos files arch version
older_for files _ = none

abbrev pub or_else : {A : Type 0} → Option A → Option A → Option A
or_else (some a) b = some a
or_else none b = b

abbrev pub or_no_bottle : Text → BottleTag → Option BottleFile → Result NetError BottleFile
or_no_bottle name tag (some file) = ok file
or_no_bottle name tag none = err (no_bottle name tag)

unfoldable pub select_bottle : BottleTag → Text → List BottleFile → Result NetError BottleFile
unfolding select_older_macos
select_bottle host name files =
    or_no_bottle name host
      (or_else (find_tag files host) (or_else (older_for files host) (find_tag files all)))
