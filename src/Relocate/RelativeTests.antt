-- ===== src/Relocate/RelativeTests.antt =====
-- A witness for the theorem on relative paths.
use zapbrew.Base.{[], Text, bytes, text_eq, true, false, some, starts_with, components, ◌≡◌, refl}
use zapbrew.Relocate.Relative.{relative_path_from}
use zapbrew.Relocate.FollowedPaths.{follow, NoParents}
use zapbrew.Relocate.RelativeLaws.{relative_path_from-follow}

abbrev bin_dir : Text
bin_dir = bytes "/p/Cellar/x/1/bin"

abbrev opt_tool : Text
opt_tool = bytes "/p/opt//y/bin/./tool"

climbed : relative_path_from bin_dir opt_tool ≡ some (bytes "../../../../opt/y/bin/tool")
unfolding relative_path_from text_eq
climbed = refl

no_parents : NoParents (components bin_dir)
unfolding components text_eq
no_parents = tt

absolute_paths : (starts_with b'/' bin_dir ≡ true) × (starts_with b'/' opt_tool ≡ true)
unfolding starts_with
absolute_paths = (refl, refl)

relative_path_from-follow_example :
    (rel : Text) × (relative_path_from bin_dir opt_tool ≡ some rel)
    × (starts_with b'/' rel ≡ false)
    × (follow (follow [] (components bin_dir)) (components rel) ≡ follow [] (components opt_tool))
relative_path_from-follow_example =
    relative_path_from-follow bin_dir opt_tool absolute_paths.0 absolute_paths.1 no_parents
