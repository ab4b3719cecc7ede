-- ===== src/Shell/Commands.antt =====
-- The command table of kernel/shell.c and its five commands.
use micro_kernel.Base.{ℕ, ◌/◌, List, [], ◌∷◌, drop, Bytes, codes}
use micro_kernel.Base.Int.{pos}
use micro_kernel.Console.{
  Run, write_vga_at, write_char_at, clear_screen, pure, ◌>>=◌, ◌>>◌, call, stop, lift, here,
}
use micro_kernel.Strings.Text.{read_text}
use micro_kernel.Strings.Utoa.{utoa}
use micro_kernel.Pmm.{Pmm}
use micro_kernel.Pmm.Alloc.{pmm_get_used_mem, pmm_get_total_mem}

pub data Command : Type 0 where
  help echo memstat clear panic_test : Command

pub record Entry : Type 0 where
  pub name : Bytes
  pub description : Bytes
  pub func : Command

-- The entry of null pointers at the end is the end of the list.
abbrev pub commands : List Entry
commands =
    record { name = codes "help"; description = codes "Displays this help message."; func = help }
    ∷ record { name = codes "echo"; description = codes "Prints back its arguments."; func = echo }
    ∷ record {
      name = codes "memstat";
      description = codes "Displays physical memory usage.";
      func = memstat;
    }
    ∷ record { name = codes "clear"; description = codes "Clears the screen."; func = clear }
    ∷ record {
      name = codes "panic";
      description = codes "Tests the kernel panic.";
      func = panic_test;
    }
    ∷ []

-- What the commands read besides the arguments: the allocator, and the bytes that the stack holds
-- where `cmd_memstat` has its buffer of 12.
pub record Machine : Type 0 where
  pub pmm : Pmm
  pub scratch : Bytes

unfoldable pub help_lines : List Entry → Run ℕ
help_lines [] = pure 0
help_lines (e ∷ es) = do
  call (write_vga_at (codes "  ") here here 0x07)
  call (write_vga_at (e.name) here here 0x0E)
  call (write_vga_at (codes "\t- ") here here 0x07)
  call (write_vga_at (e.description) here here 0x07)
  call (write_char_at b'\n' here here 0x07)
  help_lines es

unfoldable pub cmd_help : Run ℕ
unfolding help_lines
cmd_help = do
  call (write_vga_at (codes "MicroKernel++ Shell - v0.4\nAvailable commands:\n") here here 0x0A)
  help_lines commands

-- The loop from `i = 1`: the pointers behind `argv[0]`.
unfoldable pub echo_args : Bytes → List ℕ → Run ℕ
echo_args buffer [] = do call (write_char_at b'\n' here here 0x07); pure 0
echo_args buffer (p ∷ argv) = do
  text ← lift (read_text (drop p buffer))
  call (write_vga_at text here here 0x0F)
  call (write_char_at b' ' here here 0x0F)
  echo_args buffer argv

unfoldable pub cmd_echo : Bytes → List ℕ → Run ℕ
cmd_echo buffer [] = echo_args buffer []
cmd_echo buffer (p ∷ argv) = echo_args buffer argv

unfoldable pub cmd_memstat : Machine → Run ℕ
cmd_memstat m = do
  let used_mem = pmm_get_used_mem m.pmm
  let total_mem = pmm_get_total_mem m.pmm
  call (write_vga_at (codes "Physical Memory Usage:\n") here here 0x0B)
  buffer ← lift (utoa (used_mem / 1024) m.scratch (pos 10))
  call (write_vga_at (codes "  Used: ") here here 0x07)
  used ← lift (read_text buffer)
  call (write_vga_at used here here 0x0F)
  call (write_vga_at (codes " KB\n") here here 0x07)
  buffer' ← lift (utoa (total_mem / 1024) buffer (pos 10))
  call (write_vga_at (codes "  Total: ") here here 0x07)
  total ← lift (read_text buffer')
  call (write_vga_at total here here 0x0F)
  call (write_vga_at (codes " KB\n") here here 0x07)
  pure 0

unfoldable pub cmd_panic_test : Run ℕ
cmd_panic_test = stop (codes "User-initiated panic test.")

unfoldable pub cmd_clear : Run ℕ
cmd_clear = do call clear_screen; pure 0

-- `commands[i].func(argc, argv)`; `buffer` is what the pointers of `argv` point into.
unfoldable pub run_command : Command → Machine → Bytes → List ℕ → Run ℕ
run_command help m buffer argv = cmd_help
run_command echo m buffer argv = cmd_echo buffer argv
run_command memstat m buffer argv = cmd_memstat m
run_command clear m buffer argv = cmd_clear
run_command panic_test m buffer argv = cmd_panic_test
