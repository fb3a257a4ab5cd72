-- ===== src/Table.antt =====
-- src/table.rs: the raw operations on the sequence part of a Lua table.
pub mod Api
pub mod Raw
pub mod Shift
pub mod Sequence
mod Tests
