-- ===== src/Micro.antt =====
-- components/src/micro_fs: the block file system.
pub mod Bitmap
pub mod Cache
pub mod Layout
pub mod Mfs
pub mod Vfs
