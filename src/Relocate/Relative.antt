-- ===== src/Relocate/Relative.antt =====
-- relocate.rs: the relative path that a symlink is given.
use zapbrew.Base.{
  Text, bytes, ◌||◌, List, [], ◌∷◌, ◌++◌, Option, some, if◌then◌else◌, is_empty, starts_with,
  ends_with, Component, root_dir, cur_dir, parent_dir, normal, components, component_eq,
}

-- `PathBuf::push`
unfoldable pub path_push : Text → Text → Text
unfolding starts_with ends_with
path_push path p =
    if starts_with b'/' p
    then p
    else if is_empty path || ends_with b'/' path
    then path ++ p
    else path ++ (b'/' ∷ p)

-- The loop that counts the common components, as what it leaves of both.
unfoldable pub strip_common : List Component → List Component → List Component × List Component
unfolding component_eq
strip_common [] ts = ([], ts)
strip_common (f ∷ fs) [] = (f ∷ fs, [])
strip_common (f ∷ fs) (t ∷ ts) =
    let rest = strip_common fs ts in if component_eq f t then rest else (f ∷ fs, t ∷ ts)

-- One step up for each component that is left of `from`.
unfoldable pub climb : Text → List Component → Text
unfolding path_push
climb result [] = result
climb result (f ∷ fs) = climb (path_push result (bytes "..")) fs

abbrev pub descend_step : Text → Component → Text
descend_step result root_dir = result
descend_step result cur_dir = result
descend_step result parent_dir = path_push result (bytes "..")
descend_step result (normal name) = path_push result name

unfoldable pub descend : Text → List Component → Text
unfolding path_push
descend result [] = result
descend result (t ∷ ts) = descend (descend_step result t) ts

-- `relative_path_from`: there are no prefixes on Unix, so it always has a result.
unfoldable pub relative_path_from : Text → Text → Option Text
unfolding components strip_common climb descend path_push
relative_path_from from to =
    let (fs, ts) = strip_common (components from) (components to) in
    let result = descend (climb [] fs) ts in
    some (if is_empty result then path_push result (bytes ".") else result)
