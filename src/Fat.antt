-- ===== src/Fat.antt =====
-- The FAT32 driver of src/fs/fat.c, a part to a child module.
pub mod Bytes
pub mod State
pub mod Cache
pub mod Table
pub mod Chain
pub mod Over
pub mod Geo
pub mod Clear
pub mod Name
pub mod Dir
pub mod Path
pub mod Add
pub mod File
pub mod Mount
pub mod Report
pub mod Time
pub mod Examples
pub mod Entries
mod Reading
