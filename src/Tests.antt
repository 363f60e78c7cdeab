-- ===== src/Tests.antt =====
-- Concrete inputs for the theorems, and runs of the definitions.
mod Memory
mod Cvt
mod Printing
mod Streams
mod Opening
mod Runtime
mod Heap
mod Start
mod Strings
mod Devices
mod Kernel
mod Files
mod Blocks
