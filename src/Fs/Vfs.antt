-- ===== src/Fs/Vfs.antt =====
-- The writable RAM file system of crates/kernel/src/fs/vfs.rs: a flat table of slots. Every
-- function runs with `FS_LOCK` held, so each is one step on the table.
pub mod Table
pub mod Access
pub mod Edit
pub mod Find
pub mod Tree
pub mod Keeps
pub mod Slots
pub mod Handles
pub mod Contents
pub mod History
mod Tests
