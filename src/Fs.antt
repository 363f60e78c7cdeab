-- ===== src/Fs.antt =====
-- clib/fs: files of the operating system as the device of a stream, and the error numbers.
pub mod Errors
pub mod Device
pub mod Tmpnam
pub mod Tmpfile
