-- ===== src/Kernel.antt =====
-- kernel/kernel.c: `hex_to_str` and the start of the kernel.
pub mod Entry
pub mod Hex
pub mod Image
pub mod Loader
pub mod Main
pub mod Boot
pub mod FirstKey
mod Tests
