-- ===== src/Types.antt =====
-- src/types: turns, edges, slices and what is built from slices.
pub mod Role
pub mod Phase
pub mod Turn
pub mod Edge
pub mod Slice
pub mod Admissible
pub mod Verification
pub mod Boundary
pub mod Diversity
pub mod Sufficiency
pub mod Provenance
pub mod Incident
