-- ===== src/Kernel/Entry.antt =====
-- boot/boot.s: the Multiboot header and the entry point.
use micro_kernel.Base.{
  ℕ, ◌+◌, ◌-◌, ◌/◌, ◌%◌, ◌^◌, ◌≡◌, refl, ap, Bool, false, ◌==◌, ◌&&◌, List, [], ◌∷◌, some, u32,
  bit_or, ◌<<<◌,
}
use micro_kernel.Cpu.{
  Cpu, Instruction, cli, push_ebx, call, cdecl, bytes_32, take_32, push_32, pop_32, step, run_code,
}
use micro_kernel.Cpu.Words.{IsCpu, word_32}
use micro_kernel.Interrupts.Stub.Frame.{argument}

abbrev pub magic : ℕ
magic = 0x1BADB002

abbrev pub flags : ℕ
flags = bit_or (1 <<< 0) (1 <<< 6)

abbrev pub header : List ℕ
header = magic ∷ flags ∷ u32 (2 ^ 32 - (magic + flags)) ∷ []

-- Whether a loader takes an image with a header, by the Multiboot specification: the three words
-- add up to 0, and no flag below bit 16 is set that the specification does not define (it defines
-- 0, 1 and 2).
abbrev pub accepts : List ℕ → Bool
accepts (m ∷ f ∷ checksum ∷ []) =
    m == 0x1BADB002 && u32 (m + f + checksum) == 0 && f % 2 ^ 16 / 2 ^ 3 == 0
accepts _ = false

-- The code up to the loop that halts.
abbrev pub start : ℕ → (Cpu → Cpu) → List Instruction
start back kernel_main = push_ebx ∷ call back kernel_main ∷ cli ∷ []

-- `kernel_main` gets the EBX that the loader left as its argument, and if it returns, the code
-- reaches its loop with interrupts disabled and EBX as it was.
pub entry_argument :
    (c : Cpu) (back : ℕ) (scratch : Cpu → ℕ × ℕ × ℕ)
    → IsCpu c
    → (argument (push_32 back (push_32 c.ebx c)) ≡ some c.ebx)
      × (c' : Cpu) × (run_code (start back (cdecl scratch)) c ≡ some c')
      × (c'.interrupts ≡ false)
      × (c'.ebx ≡ c.ebx)
unfolding run_code step push_32 pop_32 take_32 bytes_32
entry_argument c back scratch h = (ap some (word_32 c.ebx h.ebx), _, refl, refl, refl)

-- The sum is right, but bit 6 is not one of the header's flags.
header_refused : accepts header ≡ false
header_refused = refl

header_sum : u32 (magic + flags + u32 (2 ^ 32 - (magic + flags))) ≡ 0
header_sum = refl
