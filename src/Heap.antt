-- ===== src/Heap.antt =====
-- Memory allocation: clib/malloc.c over a heap implementation, and the implementations.
pub mod Impl
pub mod Accumulator
pub mod Malloc
pub mod OsHeap
pub mod O1
