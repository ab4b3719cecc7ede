-- ===== src/Imperium/Features.antt =====
-- main.core.asm, parts 8 and 13: the features of the processor, and the floating-point unit. What
-- `cpuid` gives is a parameter.
pub mod Fpu
use micro_kernel.Base.{
  ℕ, ◌+◌, ◌*◌, ◌/◌, ◌%◌, ◌^◌, ◌==◌, if◌then◌else◌, bit_and, bit_or, Bytes, [], ◌∷◌, ◌++◌, Bool,
}
use micro_kernel.Cpu.{bytes_32}

-- EAX, EBX, ECX and EDX after `cpuid`, from EAX before it.
pub record Leaf : Type 0 where
  pub eax : ℕ
  pub ebx : ℕ
  pub ecx : ℕ
  pub edx : ℕ

-- The carry flag after `bt`, which takes the bit number modulo 32.
abbrev pub bit_test : ℕ → ℕ → ℕ
bit_test value n = value / 2 ^ (n % 32) % 2

-- The 13 bytes that are stored at the argument.
abbrev pub cpuid_get_vendor_string : (ℕ → Leaf) → Bytes
cpuid_get_vendor_string cpuid =
    let leaf = cpuid 0 in bytes_32 leaf.ebx ++ bytes_32 leaf.edx ++ bytes_32 leaf.ecx ++ 0 ∷ []

-- The result is EAX, and EDI and ESI, which are not saved.
unfoldable pub cpuid_check_feature : (ℕ → Leaf) → ℕ → ℕ → ℕ → ℕ × ℕ × ℕ
cpuid_check_feature cpuid query register bit =
    let leaf = cpuid query in
    (
      if register == 0
          then bit_test leaf.ecx bit
          else if register == 1
          then bit_test leaf.edx bit
          else 0,
      register,
      bit,
    )

-- CR0, CR4 and EBX; `finit` is left out.
pub record Control : Type 0 where
  pub cr0 : ℕ
  pub cr4 : ℕ
  pub ebx : ℕ

unfoldable pub fpu_sse_install : (ℕ → Leaf) → Control → Control
fpu_sse_install cpuid s =
    let leaf = cpuid 1 in
    record {
      cr0 = bit_or (bit_and s.cr0 0xFFFB) 0x20;
      cr4 = if bit_test leaf.edx 25 == 1 then bit_or s.cr4 0x00000600 else s.cr4;
      ebx = leaf.ebx;
    }
