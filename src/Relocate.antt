-- ===== src/Relocate.antt =====
-- crates/zapbrew-pour/src/relocate.rs: the rewriting of placeholders in texts and in binaries. A
-- file is the list of its bytes; `usize` and `u64` are numbers below 2 ^ 64, whose checked
-- operations give `none` past that.
pub mod Bytes
pub mod BytesLaws
pub mod Replace
pub mod Pieces
pub mod Scans
pub mod Padding
pub mod Protected
pub mod Slots
pub mod Headers
pub mod Writes
pub mod Appended
pub mod NewHeader
pub mod GrowWith
pub mod NewLoad
pub mod Lengths
pub mod Growth
pub mod Outcome
pub mod GccLib
pub mod Segments
mod Tests
mod RelativeTests
pub mod Relative
pub mod PushedPaths
pub mod FollowedPaths
pub mod RelativeLaws
pub mod MachoTable
pub mod MachoRound
pub mod MachoRewrite
pub mod Filling
pub mod Rounding
pub mod Elf
pub mod Append
pub mod Runpath
pub mod Macho
pub mod Dynamic
pub mod Rewrite
pub mod Plan
