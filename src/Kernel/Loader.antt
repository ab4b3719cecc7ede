-- ===== src/Kernel/Loader.antt =====
-- kernel/multiboot.h and a boot loader that follows the Multiboot specification.
mod Tests
use micro_kernel.Base.{
  ℕ, zero, suc, ◌+◌, ◌^◌, ◌<◌, ◌≡◌, ◌≢◌, refl, [], ◌∷◌, ◌++◌, some, arith, false, bit_and, u32,
  codes, Bytes, ◌==◌,
}
use micro_kernel.Console.{Trace, halted, panic}
use micro_kernel.Pmm.Multiboot.{Memory, read_info, read_u32, read_u32-lt, mboot_flag_mmap}
use micro_kernel.Pmm.Init.{no_region, scan_map, set_bounds, init_pmm, max_rounds}
use micro_kernel.Interrupts.{Idt}
use micro_kernel.Kernel.Main.{kernel_main}
use micro_kernel.Kernel.Boot.{yellow, kernel_main_halts}

-- The structure as the specification lays it out, from its flags on: four words for the symbols at
-- 28, then the length and the address of the memory map.
pub record Given : Type 0 where
  pub flags : ℕ
  pub symbols : ℕ
  pub mmap_length : ℕ
  pub mmap_addr : ℕ

abbrev pub given : Memory → ℕ → Given
given m mbd = record {
  flags = read_u32 m mbd;
  symbols = read_u32 m (mbd + 40);
  mmap_length = read_u32 m (mbd + 44);
  mmap_addr = read_u32 m (mbd + 48);
}

-- The kernel takes the fourth word of the symbols for the length, and the length for the address.
misread :
    (m : Memory) (mbd : ℕ)
    → ((read_info m mbd).mmap_length ≡ (given m mbd).symbols)
      × ((read_info m mbd).mmap_addr ≡ (given m mbd).mmap_length)
unfolding read_info
misread m mbd = (refl, refl)

no_rounds :
    (fuel : ℕ) (m : Memory) (cursor : ℕ)
    → cursor < 2 ^ 32
    → 0 < fuel
    → scan_map fuel m cursor (u32 (cursor + 0)) no_region ≡ some no_region
unfolding scan_map
no_rounds zero m cursor h enough = absurd (omega arith)
no_rounds (suc fuel) m cursor h enough = ground arith

no_room :
    (kernel_end : ℕ)
    → set_bounds kernel_end no_region
      ≡ halted (panic (codes "Not enough memory to start PMM!") ∷ [])
unfolding set_bounds
no_room kernel_end = ground arith

no_symbols_halts :
    (m : Memory) (kernel_end mbd : ℕ)
    → bit_and (given m mbd).flags mboot_flag_mmap ≢ 0
    → (given m mbd).symbols ≡ 0
    → init_pmm m kernel_end mbd ≡ halted (panic (codes "Not enough memory to start PMM!") ∷ [])
unfolding init_pmm
no_symbols_halts m kernel_end mbd flag none_given =
    let fields = misread m mbd in
    let flag' : (bit_and (read_info m mbd).flags mboot_flag_mmap == 0) ≡ false =
      unfold read_info in ground arith in
    let empty : scan_map max_rounds m (read_info m mbd).mmap_addr
          (u32 ((read_info m mbd).mmap_addr + (read_info m mbd).mmap_length)) no_region
        ≡ some no_region =
      rw (fields.0, fields.1, none_given)
        (no_rounds max_rounds m (given m mbd).mmap_length (read_u32-lt m (mbd + 44))
          (omega arith)) in
    rw (flag', empty) (no_room kernel_end)

-- A boot loader that gives a memory map as the Multiboot specification lays it out, and 0 in the
-- last word of the symbols: whatever the map is, and whatever else memory, the array and the
-- interrupt table hold, the start of the kernel ends in the panic that there is not enough memory,
-- with nothing in yellow: no page is allocated.
pub conforming_map_halts :
    (m : Memory) (kernel_end idt_addr isr33_addr mbd : ℕ) (buffer : Bytes) (s : Idt)
    → bit_and (given m mbd).flags mboot_flag_mmap ≢ 0
    → (given m mbd).symbols ≡ 0
    → (t : Trace) × (kernel_main m kernel_end idt_addr isr33_addr mbd buffer s
        ≡ halted (t ++ panic (codes "Not enough memory to start PMM!") ∷ []))
      × (yellow t ≡ [])
conforming_map_halts m kernel_end idt_addr isr33_addr mbd buffer s flag none_given =
    kernel_main_halts m kernel_end idt_addr isr33_addr mbd buffer _ s
      (no_symbols_halts m kernel_end mbd flag none_given)
