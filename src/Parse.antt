-- ===== src/Parse.antt =====
-- crates/laya-parse: files cut into chunks of whole rows. `ChunkConfig` of src/lib.rs.
mod Config
mod Rows
pub mod Merging
mod Chunking
pub mod Lines
pub mod Windows
pub mod Tree
pub mod Segments
pub mod Source
mod Tests
pub use Config.*
