-- ===== src/Fs.antt =====
-- os/src/fs: pipes and file descriptors.
pub mod Pipe
pub mod Descriptors
pub mod Inode
