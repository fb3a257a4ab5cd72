-- ===== src/Registry.antt =====
-- src/types/registry_key.rs and the registry operations of src/state.rs.
pub mod Api
pub mod Ops
pub mod World
pub mod Keys
pub mod Refines
mod Tests
