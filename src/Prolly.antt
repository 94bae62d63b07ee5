-- ===== src/Prolly.antt =====
-- crates/acetone-prolly/src: ordered maps on prolly trees, and how two versions differ and merge.
pub mod Types
pub mod Ordered
pub mod Node
pub mod Diff
pub mod Merge
pub mod Batch
pub mod Chunker
pub mod Contract
mod Tests
