-- ===== src/Extension.antt =====
-- src/lib.rs: the functions that SQL calls. `err` is the error that `pgrx::error!` raises.
pub mod Stage
pub mod Enqueue
pub mod Fetch
pub mod Register
pub mod Sync
