-- ===== src/Base/Paths.antt =====
-- `std::path` on Unix: the components of a path, and the tests that go by them.
use mathlib.Core.Bool.{Bool, true, false, ◌||◌}
use mathlib.Core.List.{List, [], ◌∷◌}
use mathlib.Core.Option.{Option, none, some}
use zapbrew.Base.Tests.{if◌then◌else◌}
use zapbrew.Base.Lists.{is_empty}
use zapbrew.Base.Texts.{Text, bytes, text_eq, split, starts_with}

pub data Component : Type 0 where
  root_dir cur_dir parent_dir : Component
  normal : Text → Component

-- Behind the first piece, empty pieces and `.` are passed over.
unfoldable pub parts : List Text → List Component
parts [] = []
parts (p ∷ ps) =
    let rest = parts ps in
    if is_empty p || text_eq p (bytes ".")
    then rest
    else if text_eq p (bytes "..")
    then parent_dir ∷ rest
    else normal p ∷ rest

-- A leading `.` is a component.
abbrev pub leading : List Text → List Component
leading [] = []
leading (p ∷ ps) = if text_eq p (bytes ".") then cur_dir ∷ parts ps else parts (p ∷ ps)

-- `Path::components`
unfoldable pub components : Text → List Component
unfolding parts split starts_with
components s =
    if starts_with b'/' s then root_dir ∷ parts (split b'/' s) else leading (split b'/' s)

unfoldable pub component_eq : Component → Component → Bool
component_eq root_dir root_dir = true
component_eq cur_dir cur_dir = true
component_eq parent_dir parent_dir = true
component_eq (normal s) (normal t) = text_eq s t
component_eq _ _ = false

-- `Path::strip_prefix`, on components.
unfoldable pub strip_components : List Component → List Component → Option (List Component)
unfolding component_eq
strip_components [] path = some path
strip_components (b ∷ base) [] = none
strip_components (b ∷ base) (p ∷ path) =
    let rest = strip_components base path in if component_eq b p then rest else none

-- `Path::starts_with`: whole components.
unfoldable pub path_starts_with : Text → Text → Bool
unfolding components strip_components
path_starts_with path base = elim (strip_components (components base) (components path)) [
  | none ↦ false
  | some rest ↦ true
]

-- `Component::as_str`
abbrev pub component_str : Component → Text
component_str root_dir = bytes "/"
component_str cur_dir = bytes "."
component_str parent_dir = bytes ".."
component_str (normal s) = s
