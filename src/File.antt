-- ===== src/File.antt =====
-- Regular files: f_open, f_read, f_write, f_remove (filesystem.c).
pub mod Open
pub mod Slot
pub mod Read
pub mod ReadBlock
pub mod Write
pub mod Copies
pub mod Append
pub mod Remove
pub mod Release
