-- ===== src/Fs.antt =====
-- kern/fs: the file system.
pub mod Path
pub mod Cache
pub mod Log
pub mod Bitmap
