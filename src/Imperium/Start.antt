-- ===== src/Imperium/Start.antt =====
-- main.core.asm, parts 2 and 16: the two versions of `_start`.
pub mod Simple
pub mod Advanced
pub mod Devices
use micro_kernel.Base.{
  ℕ, ◌+◌, ◌*◌, Bool, true, false, List, [], ◌∷◌, ◌++◌, Option, none, some, if◌then◌else◌, Bytes,
  codes,
}
use micro_kernel.Console.{Run, pure, lift, ◌>>=◌, ◌>>◌}
use micro_kernel.Imperium.Features.{Leaf, Control, fpu_sse_install}
use micro_kernel.Imperium.Idt.{IdtState, idt_install}
use micro_kernel.Imperium.Paging.{Paging, paging_install}
use micro_kernel.Imperium.Segments.{Segments, gdt_install, tss_install}
use micro_kernel.Imperium.Timer.{pit_install}
use micro_kernel.Imperium.Vga.{Vga, vga_clear_screen, vga_print_string}

-- The addresses that the linker gives.
pub record Places : Type 0 where
  pub stub : ℕ → ℕ
  pub idt_start : ℕ
  pub tss_entry : ℕ
  pub kernel_stack_top : ℕ
  pub page_directory : ℕ
  pub first_page_table : ℕ

pub record Machine : Type 0 where
  pub ebx : ℕ
  pub cr4 : ℕ
  pub interrupts : Bool
  pub segments : Segments
  pub idt : IdtState
  pub paging : Paging
  pub vga : Vga

-- `kmain` is called with its argument, or the processor faults.
pub data End : Type 0 where
  kmain : ℕ → Machine → End
  fault : Machine → End

abbrev pub or_fault : Option Segments → Machine → (Segments → Run End) → Run End
or_fault none m next = pure (fault m)
or_fault (some segments) m next = next segments

-- The first version, on line 60. A store outside of an object is undefined.
unfoldable pub start_simple : Places → Machine → Run End
start_simple a m = or_fault (gdt_install m.segments) m (λ segments. do
  idt ← idt_install a.stub a.idt_start m.idt
  pure (kmain m.ebx (record m { segments = segments; idt = idt; interrupts = true })))

abbrev pub line : Bytes → Bytes
line text = text ++ b'\n' ∷ 0 ∷ []

abbrev pub boot_text : Bytes
boot_text = codes "Imperium OS Booting..."

-- What follows `tss_install` in the second version.
unfoldable pub start_devices : (ℕ → Leaf) → Places → Machine → Run End
start_devices cpuid a m = do
  vga₁ ← vga_print_string (line (codes " [ OK ] GDT and TSS installed.")) m.vga
  idt ← idt_install a.stub a.idt_start m.idt
  vga₂ ← vga_print_string (line (codes " [ OK ] IDT and PIC configured.")) vga₁
  ebx ← pit_install 100 m.ebx
  vga₃ ← vga_print_string (line (codes " [ OK ] PIT initialized.")) vga₂
  let control = fpu_sse_install cpuid (record { cr0 = m.paging.cr0; cr4 = m.cr4; ebx = ebx })
  vga₄ ← vga_print_string (line (codes " [ OK ] FPU/SSE units enabled.")) vga₃
  paging ←
      lift
        (paging_install a.page_directory a.first_page_table (record m.paging { cr0 = control.cr0 }))
  vga₅ ← vga_print_string (line (codes " [ OK ] Paging mechanism enabled.")) vga₄
  vga₆ ←
      vga_print_string
        (b'\n' ∷ line (codes "Handing over control to high-level kernel..." ++ b'\n' ∷ [])) vga₅
  pure (
      kmain control.ebx (record m {
        ebx = control.ebx;
        cr4 = control.cr4;
        interrupts = true;
        idt = idt;
        paging = paging;
        vga = vga₆;
      }))

-- The second version, on line 1163.
unfoldable pub start_advanced : (ℕ → Leaf) → Places → Machine → Run End
start_advanced cpuid a m = do
  vga₁ ← vga_clear_screen m.vga
  vga₂ ← vga_print_string (line boot_text) vga₁
  let m₂ = record m { interrupts = false; vga = vga₂ }
  or_fault (gdt_install m.segments) m₂ (λ segments. do
    (segments', loads) ← lift (tss_install a.tss_entry a.kernel_stack_top segments)
    let m₃ = record m₂ { segments = segments' }
    let continues = start_devices cpuid a m₃
    if loads then continues else pure (fault m₃))
