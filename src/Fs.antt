-- ===== src/Fs.antt =====
-- The file server, fs/.
pub mod Bitmap
pub mod Bytes
pub mod File
pub mod Data
pub mod Dir
pub mod Path
pub mod Serve
