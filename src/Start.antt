-- ===== src/Start.antt =====
-- clib/main.c: how a program gets its memory and its arguments.
pub mod Args
pub mod Redirect
pub mod Layout
