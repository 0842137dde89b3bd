-- ===== src/Fs.antt =====
-- The file system of crates/kernel/src/fs.
pub mod Error
pub mod Path
pub mod Devfs
pub mod Vfs
pub mod Pipe
pub mod Fd
