-- ===== src/Core/Commands.antt =====
-- coresystem.c, part 9: the commands `klog`, `lspci` and `uptime`, which take no arguments.
pub mod Uptime
pub mod Klog
mod Tests
use micro_kernel.Base.{ℕ, ◌+◌, ◌/◌, ◌%◌, List, [], ◌∷◌, Bytes, literal}
use micro_kernel.Console.{Run, pure, ◌>>=◌, ◌>>◌}
use micro_kernel.Core.Printf.{Arg, int}
use micro_kernel.Core.Printf.Call.{shell_printf}

unfoldable pub print_lines : List Bytes → Run ℕ
print_lines [] = pure 0
print_lines (l ∷ ls) = do shell_printf l []; print_lines ls

abbrev pub klog_lines : List Bytes
klog_lines =
    literal "kernel log buffer (last 10 entries):\n"
    ∷ literal "[info]  core: coresystem initialization sequence started.\n"
    ∷ literal "[info]  pmm: physical memory manager initialized.\n"
    ∷ literal "[info]  vfs: virtual file system initialized with ramfs root.\n"
    ∷ literal "[info]  sched: process manager and scheduler initialized.\n"
    ∷ literal "[info]  syscall: system call interface configured.\n"
    ∷ literal "[info]  core: coresh process has been created as pid 1.\n"
    ∷ literal "[info]  core: scheduler enabled. handing over control to multitask kernel.\n"
    ∷ literal "[debug] pmm: allocated page.\n"
    ∷ []

unfoldable pub cmd_klog : Run ℕ
cmd_klog = print_lines klog_lines

abbrev pub lspci_lines : List Bytes
lspci_lines =
    literal "scanning pci bus...\n"
    ∷ literal "00:00.0 host bridge: intel corporation 440fx - 82441fx pci bridge (rev 02)\n"
    ∷ literal "00:01.0 isa bridge: intel corporation 82371sb piiq3 isa bridge (rev 00)\n"
    ∷ literal "00:01.1 ide interface: intel corporation 82371sb piiq3 ide [tri-state] (rev 01)\n"
    ∷ literal "00:02.0 vga compatible controller: innotek gmbh virtualbox graphics adapter\n"
    ∷ []

unfoldable pub cmd_lspci : Run ℕ
cmd_lspci = print_lines lspci_lines

-- `ticks` is `system_tick_count`, and 20 is `SCHEDULER_QUANTUM_MS`.
unfoldable pub cmd_uptime : ℕ → Run ℕ
cmd_uptime ticks = do
  let freq = 1000 / 20
  let seconds = ticks / freq
  let minutes = seconds / 60
  let hours = minutes / 60
  let days = hours / 24
  shell_printf (literal "system up for: %d days, %d hours, %d minutes, %d seconds (%d ticks)\n")
      (int days ∷ int (hours % 24) ∷ int (minutes % 60) ∷ int (seconds % 60) ∷ int ticks ∷ [])
  pure 0
