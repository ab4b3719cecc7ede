-- ===== src/Strings.antt =====
-- kernel/string.c: comparison, tokenizing and the printing of unsigned numbers.
-- A `const char*` is the list of bytes from the pointer to the end of its object.
pub mod Text
pub mod Strcmp
pub mod Strtok
pub mod Utoa
mod Tests
