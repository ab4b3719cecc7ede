-- ===== src/Imperium/Features/Fpu.antt =====
-- What `fpu_sse_install` does to CR0 and EBX.
use micro_kernel.Base.{ℕ, ◌/◌, ◌%◌, ◌^◌, ◌≡◌, refl, bit_and, arith}
use micro_kernel.Base.Bits.{bit_or-alone, bit_and_le}
use micro_kernel.Imperium.Features.{Leaf, Control, fpu_sse_install}

-- Whatever CR0 and the processor's features are: the upper half of CR0 is 0 afterwards, where the
-- mask of 16 bits is meant to clear the emulation bit alone; the bit for numeric errors is set;
-- and EBX holds what `cpuid` left in it.
pub fpu_control :
    (cpuid : ℕ → Leaf) (s : Control)
    → ((fpu_sse_install cpuid s).cr0 / 2 ^ 16 ≡ 0)
      × ((fpu_sse_install cpuid s).cr0 / 2 ^ 5 % 2 ≡ 1)
      × ((fpu_sse_install cpuid s).ebx ≡ (cpuid 1).ebx)
unfolding fpu_sse_install
fpu_control cpuid s =
    let masked = bit_and_le s.cr0 0xFFFB in
    let raised = bit_or-alone (bit_and s.cr0 0xFFFB) 5 in (omega arith, omega arith, refl)
