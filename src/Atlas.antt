-- ===== src/Atlas.antt =====
-- src/atlas: what the slices have in common, and the identity of a state of the graph.
pub mod Overlap
pub mod Snapshot
pub mod Influence
pub mod BatchSlicer
pub mod Bundler
