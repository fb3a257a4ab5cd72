-- ===== src/UserData.antt =====
-- src/userdata: the lock of a userdata cell, and the cell that Rust and Lua borrow from.
pub mod Lock
pub mod RawLock
pub mod Cell
pub mod World
pub mod Aliasing
mod Tests
