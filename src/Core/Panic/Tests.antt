-- ===== src/Core/Panic/Tests.antt =====
-- The panic screen at inputs that meet the theorems' hypotheses.
use micro_kernel.Base.{
  ℕ, ◌+◌, ◌*◌, ◌<◌, ◌≡◌, refl, true, false, [], ◌∷◌, ◌++◌, none, some, arith, length,
  length-replicate, replicate, get_or, Bytes, codes,
}
use micro_kernel.Pmm.Multiboot.{Memory}
use micro_kernel.Core.Panic.{Screen, panic_vga_print_hex}
use micro_kernel.Core.Panic.Text.{cells, Shows, glyph}
use micro_kernel.Core.Panic.Hex.{high_first, hex_value, print_hex-report}
use micro_kernel.Core.Panic.Line.{line_text, turn, line_digits}
use micro_kernel.Core.Panic.Halt.{Registers, halts, spins, kernel_panic}
use micro_kernel.Core.Panic.Halt.Reason.{kernel_panic-reason}
use micro_kernel.Core.Panic.Halt.Dump.{Reports}
use micro_kernel.Core.Panic.Halt.Visible.{Stands, trace_heading, kernel_panic-registers}
use micro_kernel.Core.Panic.Halt.Ends.{last_words, kernel_panic_halts}

abbrev blank : Screen
blank = replicate 2000 0x0720

size : length blank ≡ cells
size = length-replicate {A = ℕ} 2000 0x0720

abbrev stack : Bytes
stack = replicate 12 0xCC

-- A frame at 16 that returns to 0x1010 and has no caller.
abbrev frames : Memory
frames a = get_or (replicate 20 0 ++ 16 ∷ 16 ∷ []) a 0

ten : line_text 1907 stack ≡ some (codes "1907" ++ 0 ∷ replicate 7 0xCC)
unfolding line_text line_digits turn
ten = refl

print_hex-report_example :
    (s' : Screen) × (panic_vga_print_hex 0x1234abcd 9 7 0x0F blank ≡ some s')
    × (length s' ≡ length blank)
    × Shows (codes "0x" ++ high_first 8 0x1234abcd) (7 * 80 + 9) 0x0F blank s'
    × (hex_value (high_first 8 0x1234abcd) 0 ≡ 0x1234abcd)
print_hex-report_example =
    print_hex-report 0x1234abcd 9 7 0x0F blank (omega arith) size (omega arith) (omega arith)

kernel_panic_halts_example :
    (s' : Screen) × (kernel_panic frames 16 stack
        (codes "out of memory" ++ 0 ∷ [])
        (codes "pmm.c" ++ 0 ∷ [])
        54
        none
        false
        blank
      ≡ some (true, halts s'))
    × (length s' ≡ cells)
    × ((i : ℕ)
        → i < length last_words
        → get_or s' (23 * 80 + 25 + i) 0 ≡ glyph (get_or last_words i 0) 0x4F)
    × (kernel_panic frames 16 stack
          (codes "out of memory" ++ 0 ∷ [])
          (codes "pmm.c" ++ 0 ∷ [])
          54
          none
          true
          s'
        ≡ some (true, spins s'))
kernel_panic_halts_example =
    kernel_panic_halts frames 16 stack (codes "out of memory") [] (codes "pmm.c") [] 54 none blank
      (omega arith) (omega arith) (omega arith) (length-replicate {A = ℕ} 12 0xCC) size

kernel_panic-reason_example :
    (s' : Screen) × (kernel_panic frames 16 stack
        (codes "out of memory" ++ 0 ∷ [])
        (codes "pmm.c" ++ 0 ∷ [])
        54
        none
        false
        blank
      ≡ some (true, halts s'))
    × ((i : ℕ)
        → i < 13
        → get_or s' (3 * 80 + 10 + i) 0 ≡ glyph (get_or (codes "out of memory") i 0) 0x0F)
kernel_panic-reason_example =
    kernel_panic-reason frames 16 stack (codes "out of memory") [] (codes "pmm.c") [] 54 none blank
      (omega arith) (omega arith) (omega arith) (omega arith) (length-replicate {A = ℕ} 12 0xCC)
      size

-- The registers of a page fault in a program.
abbrev registers : Registers
registers = record {
  eax = 1;
  ebx = 0xB8000;
  ecx = 0;
  edx = 0x3D4;
  esi = 0x1000;
  edi = 0x2000;
  ebp = 16;
  esp = 0x9FC00;
  eip = 0x1010;
  cs = 8;
  eflags = 0x202;
  useresp = 0x9FC00;
  ss = 16;
}

kernel_panic-registers_example :
    (s' : Screen) × (kernel_panic frames 16 stack
        (codes "page fault" ++ 0 ∷ [])
        (codes "mm.c" ++ 0 ∷ [])
        7
        (some registers)
        false
        blank
      ≡ some (true, halts s'))
    × Reports 1 (7 * 80 + 9) s'
    × Reports 0xB8000 (7 * 80 + 29) s'
    × Reports 0 (7 * 80 + 49) s'
    × Reports 0x3D4 (7 * 80 + 69) s'
    × Stands trace_heading 0x0C (8 * 80 + 2) s'
kernel_panic-registers_example =
    kernel_panic-registers frames 16 stack (codes "page fault") [] (codes "mm.c") [] 7 registers
      blank (omega arith) (omega arith) (omega arith) (length-replicate {A = ℕ} 12 0xCC) size
