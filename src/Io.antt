-- ===== src/Io.antt =====
-- clib/io: the stream layer and the printing functions.
pub mod Vprintf
pub mod Printf
pub mod Sprintf
pub mod Memstream
pub mod Stream
pub mod Open
pub mod Reopen
pub mod Fprintf
pub mod Console
pub mod Sscanf
