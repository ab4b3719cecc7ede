-- ===== src/Imperium.antt =====
-- main.core.asm: the start-up code of Imperium OS in assembly.
pub mod Stubs
pub mod Ports
pub mod Repeat
pub mod Vga
pub mod Paging
pub mod Idt
pub mod Timer
pub mod Segments
pub mod E820
pub mod Features
pub mod Scancode
pub mod Start
mod Tests
