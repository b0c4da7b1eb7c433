-- ===== src/Types/Arch.antt =====
-- crates/zapbrew-types/src/bottle.rs: `Arch`
use zapbrew.Base.{Text, Result, ok, err, bytes, text_eq, if◌then◌else◌}
use zapbrew.Types.Error.{TypeError, invalid_bottle_tag}

pub data Arch : Type 0 where
  x86_64 arm64 : Arch

unfoldable pub as_str : Arch → Text
as_str x86_64 = bytes "x86_64"
as_str arm64 = bytes "arm64"

unfoldable pub from_str : Text → Result TypeError Arch
from_str s =
    if text_eq s (bytes "x86_64")
    then ok x86_64
    else if text_eq s (bytes "arm64")
    then ok arm64
    else err (invalid_bottle_tag s)
