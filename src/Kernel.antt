-- ===== src/Kernel.antt =====
-- clib/kernel: the parts of the kernel interface that do more than call the operating system.
pub mod Unwind
pub mod Swi
pub mod Calls
