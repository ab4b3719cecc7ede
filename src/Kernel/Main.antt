-- ===== src/Kernel/Main.antt =====
-- `kernel_main`. Keys that arrive meanwhile are handled by the interrupt handler, and are not a
-- part of this run.
use micro_kernel.Base.{ℕ, Bytes, codes}
use micro_kernel.Kernel.Hex.{hex_to_str}
use micro_kernel.Console.{Run, write_vga_at, clear_screen, pure, ◌>>=◌, ◌>>◌, call, lift}
use micro_kernel.Base.Int.{pos}
use micro_kernel.Strings.Text.{read_text}
use micro_kernel.Pmm.{Pmm}
use micro_kernel.Pmm.Multiboot.{Memory}
use micro_kernel.Pmm.Init.{init_pmm}
use micro_kernel.Pmm.Alloc.{pmm_alloc_page}
use micro_kernel.Interrupts.{Idt, init_idt}

unfoldable pub print : Bytes → ℕ → ℕ → ℕ → Run (Unit {0})
print text row col attr = call (write_vga_at text (pos row) (pos col) attr)

-- The allocation of one page and its report, with the label and the row.
unfoldable pub test_page : Bytes → ℕ → Pmm × Bytes → Run (Pmm × Bytes)
test_page label row (s, buffer) = do
  let (p, s') = pmm_alloc_page s
  buffer' ← lift (hex_to_str p buffer)
  print label row 2 0x0A
  text ← lift (read_text buffer')
  print text row 25 0x0E
  pure (s', buffer')

-- What the start leaves in the static variables, when the processor enters the final `hlt` loop.
pub record Booted : Type 0 where
  pub idt : Idt
  pub pmm : Pmm

-- `buffer` is what the stack holds in the array of eleven bytes.
unfoldable pub kernel_main : Memory → ℕ → ℕ → ℕ → ℕ → Bytes → Idt → Run Booted
kernel_main m kernel_end idt_addr isr33_addr mbd buffer s = do
  call clear_screen
  print (codes "MicroKernel++ v0.3") 0 0 0x07
  print (codes "Initializing Interrupts...") 1 0 0x07
  idt ← init_idt idt_addr isr33_addr s
  print (codes "OK") 1 27 0x02
  print (codes "Initializing Physical Memory Manager...") 2 0 0x07
  pmm ← init_pmm m kernel_end mbd
  print (codes "OK") 2 38 0x02
  print (codes "Keyboard enabled. Type something:") 4 0 0x0F
  print (codes "Testing PMM: Allocating 3 pages...") 8 0 0x0B
  one ← test_page (codes "Page 1 allocated at: ") 9 (pmm, buffer)
  two ← test_page (codes "Page 2 allocated at: ") 10 one
  three ← test_page (codes "Page 3 allocated at: ") 11 two
  pure (record { idt = idt; pmm = three.0 })
