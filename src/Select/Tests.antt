-- ===== src/Select/Tests.antt =====
-- Bottle selection on concrete lists of files.
use zapbrew.Base.{ℕ, ◌≤◌, bytes, ok, err, List, [], ◌∷◌, none, some, Occurs, ◌≡◌, refl, inl}
use zapbrew.Types.Arch.{x86_64, arm64}
use zapbrew.Types.MacOsVersion.{monterey, ventura, sonoma, discriminant}
use zapbrew.Types.BottleTag.{BottleTag, BottleFile, linux, mac_os, all, tag_eq}
use zapbrew.Select.{no_bottle, select_bottle}
use zapbrew.Select.Preference.{preference}
use zapbrew.Select.Choice.{select_bottle-serves, select_bottle-best, select_bottle-refuses}

abbrev file : BottleTag → BottleFile
file t = record { tag = t; cellar = bytes "any"; url = bytes "https://example.test"; sha256 = [] }

abbrev host : BottleTag
host = mac_os arm64 sonoma

abbrev files : List BottleFile
files = file (mac_os arm64 monterey) ∷ file (mac_os arm64 ventura) ∷ file all ∷ []

chosen : select_bottle host (bytes "wget") files ≡ ok (file (mac_os arm64 ventura))
unfolding select_bottle tag_eq discriminant
chosen = refl

refused :
    select_bottle (linux x86_64) (bytes "wget") (file (linux arm64) ∷ [])
    ≡ err (no_bottle (bytes "wget") (linux x86_64))
unfolding select_bottle tag_eq
refused = refl

select_bottle-serves_example :
    Occurs (file (mac_os arm64 ventura)) files
    × ((p : ℕ) × (preference host (mac_os arm64 ventura) ≡ some p))
select_bottle-serves_example =
    select_bottle-serves host (bytes "wget") files (file (mac_os arm64 ventura)) chosen

select_bottle-best_example : (p : ℕ) × (preference host (mac_os arm64 ventura) ≡ some p) × (3 ≤ p)
unfolding preference tag_eq discriminant
select_bottle-best_example =
    select_bottle-best host (bytes "wget") files (file (mac_os arm64 ventura))
      (file (mac_os arm64 monterey)) 3 chosen (inl refl) refl

select_bottle-refuses_example :
    (no_bottle (bytes "wget") (linux x86_64) ≡ no_bottle (bytes "wget") (linux x86_64))
    × ((g : BottleFile)
        → Occurs g (file (linux arm64) ∷ [])
        → preference (linux x86_64) g.tag ≡ none)
select_bottle-refuses_example =
    select_bottle-refuses (linux x86_64) (bytes "wget") (file (linux arm64) ∷ [])
      (no_bottle (bytes "wget") (linux x86_64)) refused
