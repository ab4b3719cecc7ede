-- ===== src/Core.antt =====
-- coresystem.c: the larger system's parts that have bodies.
pub mod Bitmap
pub mod Panic
pub mod Memory
pub mod Printf
pub mod Commands
pub mod Atoi
pub mod Top
pub mod Hexdump
pub mod Startup
