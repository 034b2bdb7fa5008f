-- ===== src/Easyfs.antt =====
-- The file system of fs/easyfs.
pub mod Super
pub mod Inode
pub mod Data
pub mod Links
pub mod Dir
