-- ===== src/Types/Error.antt =====
-- crates/zapbrew-types/src/error.rs
use zapbrew.Base.{Text}

pub data TypeError : Type 0 where
  invalid_checksum : Text → TypeError
  invalid_bottle_tag : Text → TypeError
  invalid_mac_os_version : Text → TypeError
  invalid_formula_name : Text → TypeError
  invalid_pkg_version : Text → TypeError
