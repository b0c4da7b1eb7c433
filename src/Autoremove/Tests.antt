-- ===== src/Autoremove/Tests.antt =====
-- Autoremove on a small installed state.
use zapbrew.Base.{
  Text, bytes, text_eq, Bool, true, false, List, [], ◌∷◌, some, split, Occurs, ◌≡◌, ◌↔◌, refl,
}
use zapbrew.Autoremove.{InstalledFormula, InstalledState, fixpoint}
use zapbrew.Autoremove.Fixpoint.{Orphan, fixpoint-Orphan}

abbrev installed : Text → List Text → InstalledFormula
installed name names = record {
  name = name;
  kegs = record { runtime_dependencies = some names } ∷ [];
}

-- `app` was asked for and needs `lib`; `old` is needed by `tool` alone, which nobody asked for.
abbrev cellar : InstalledState
cellar = record {
  formulae =
      installed (bytes "app") (bytes "lib" ∷ [])
      ∷ installed (bytes "lib") []
      ∷ installed (bytes "old") []
      ∷ installed (bytes "tool") (bytes "some/tap/old" ∷ [])
      ∷ [];
}

abbrev requests : List (Text × Bool)
requests =
    (bytes "app", true) ∷ (bytes "lib", false) ∷ (bytes "old", false) ∷ (bytes "tool", false) ∷ []

two_removable : fixpoint cellar requests ≡ some (bytes "tool" ∷ bytes "old" ∷ [])
unfolding fixpoint text_eq split
two_removable = refl

fixpoint-Orphan_example :
    (removable : List Text) × (fixpoint cellar requests ≡ some removable)
    × ((name : Text) → Occurs name removable ↔ Orphan cellar requests name)
fixpoint-Orphan_example = fixpoint-Orphan cellar requests
