-- ===== src/Runtime.antt =====
-- The program's run-time state: exit handlers, the clock, and the environment handlers.
pub mod Atexit
pub mod Clock
pub mod Signal
pub mod Handlers
pub mod Env
pub mod Failures
pub mod Library
pub mod Time
