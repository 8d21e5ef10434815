-- ===== src/Diff.antt =====
-- crates/synchrotron-diff/src: the smart diff engine, one module for each file of the crate and the
-- proofs below it.
pub mod Paths
pub mod Tree
pub mod ListMap
pub mod Compare
pub mod ManagedFields
pub mod Ignore
pub mod Ownership
pub mod AutoIgnore
pub mod Pipeline
pub mod Samples
