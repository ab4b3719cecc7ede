-- ===== src/Cpu/Words.antt =====
-- Words on the stack.
use micro_kernel.Base.{
  ℕ, ◌+◌, ◌*◌, ◌/◌, ◌%◌, ◌^◌, true, false, ◌==◌, refl, ◌<◌, ◌≡◌, ◌++◌, some, arith, ap, u8, u16,
  Bytes,
}
use micro_kernel.Cpu.{Cpu, low_16, bytes_32, take_32, names_code, checked, returns}

-- The bytes of a double word give it back.
pub word_32 :
    (v : ℕ)
    → v < 2 ^ 32
    → u8 v + 2 ^ 8 * u8 (v / 2 ^ 8) + 2 ^ 16 * u8 (v / 2 ^ 16) + 2 ^ 24 * u8 (v / 2 ^ 24) ≡ v
word_32 v h = omega arith

-- A word that was the low half of a register on its way to the stack and back.
pub word_16 :
    (v r r' : ℕ)
    → v < 2 ^ 16
    → u16 (low_16 r' (u8 (low_16 r v) + 2 ^ 8 * u8 (low_16 r v / 2 ^ 8))) ≡ v
word_16 v r r' h = omega arith

pub take_32-bytes_32 : (v : ℕ) (s : Bytes) → v < 2 ^ 32 → take_32 (bytes_32 v ++ s) ≡ some (v, s)
unfolding take_32 bytes_32
take_32-bytes_32 v s h = ap (λ w. some (w, s)) (omega arith)

-- The processor runs in ring 0, in a code segment of the table, and not in the virtual 8086 mode.
pub record IsRing0 (gdt : Bytes) (c : Cpu) : Type 0 where
  pub code : names_code gdt c.cs ≡ true
  pub ring : c.cs % 4 ≡ 0
  pub protected : c.eflags / 2 ^ 17 % 2 ≡ 0

-- All registers hold words of their size.
pub record IsCpu (c : Cpu) : Type 0 where
  pub eax : c.eax < 2 ^ 32
  pub ecx : c.ecx < 2 ^ 32
  pub edx : c.edx < 2 ^ 32
  pub ebx : c.ebx < 2 ^ 32
  pub esp : c.esp < 2 ^ 32
  pub ebp : c.ebp < 2 ^ 32
  pub esi : c.esi < 2 ^ 32
  pub edi : c.edi < 2 ^ 32
  pub ds : c.ds < 2 ^ 16
  pub eip : c.eip < 2 ^ 32
  pub cs : c.cs < 2 ^ 16
  pub eflags : c.eflags < 2 ^ 32

-- The general registers but ESP are the same.
pub record SameRegisters (c' c : Cpu) : Type 0 where
  pub eax : c'.eax ≡ c.eax
  pub ecx : c'.ecx ≡ c.ecx
  pub edx : c'.edx ≡ c.edx
  pub ebx : c'.ebx ≡ c.ebx
  pub ebp : c'.ebp ≡ c.ebp
  pub esi : c'.esi ≡ c.esi
  pub edi : c'.edi ≡ c.edi

-- What `iret` pops for a processor in ring 0 takes it back.
pub checked-IsRing0 : (gdt : Bytes) (c : Cpu) → IsRing0 gdt c → checked gdt c ≡ returns c
unfolding checked
checked-IsRing0 gdt c h =
    let no_virtual : (c.eflags / 2 ^ 17 % 2 == 1) ≡ false = rw h.protected refl in
    rw (no_virtual, h.code, h.ring) refl
