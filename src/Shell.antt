-- ===== src/Shell.antt =====
-- kernel/shell.c: the command buffer, the command table and the commands.
pub mod Parse
pub mod Commands
pub mod Interpreter
pub mod Execute
pub mod Keypress
mod Tests
