-- ===== src/Types.antt =====
-- crates/zapbrew-types: the value types that the other crates share.
pub mod Error
pub mod Arch
pub mod MacOsVersion
pub mod BottleTag
pub mod BottleLaws
pub mod FormulaName
pub mod NameParts
pub mod Checksum
mod Tests
