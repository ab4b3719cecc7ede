-- ===== src/Imperium/Segments.antt =====
-- main.core.asm, parts 3 and 15: the descriptor table, the segment registers and the task state.
pub mod Flat
pub mod Task
use micro_kernel.Base.{
  Bool, true, false, ℕ, zero, suc, ◌+◌, ◌-◌, ◌*◌, ◌/◌, ◌%◌, ◌^◌, List, [], ◌∷◌, ◌++◌, Option, none,
  some, ◌>>=◌, ltb, if◌then◌else◌, Bytes, drop, take, length, replicate, set, store, u8, u16, u32,
  ◌>>>◌,
}
use micro_kernel.Cpu.{bytes_16, bytes_32}
use micro_kernel.Imperium.Repeat.{rep_stos}

-- One descriptor: its five fields in the order in which they are written down.
abbrev pub descriptor : ℕ → ℕ → ℕ → ℕ → ℕ → ℕ → Bytes
descriptor limit_low base_low base_middle access flags_limit base_high =
    u8 limit_low
    ∷ u8 (limit_low / 2 ^ 8)
    ∷ u8 base_low
    ∷ u8 (base_low / 2 ^ 8)
    ∷ base_middle
    ∷ access
    ∷ flags_limit
    ∷ base_high
    ∷ []

-- The bytes from `gdt_start` to `gdt_end`.
abbrev pub gdt : Bytes
gdt =
    replicate 8 0
    ++ descriptor 0xFFFF 0x0000 0x00 0x9A 0xCF 0x00
    ++ descriptor 0xFFFF 0x0000 0x00 0x92 0xCF 0x00

-- The descriptor of the task state, as it stands in the data section, elsewhere.
abbrev pub gdt_tss : Bytes
gdt_tss = descriptor 0 0 0 0x89 0 0

-- What `lgdt` has loaded, the table's limit and bytes, and the registers; the two objects of the
-- data sections.
pub record Segments : Type 0 where
  pub limit : ℕ
  pub table : Bytes
  pub cs : ℕ
  pub ds : ℕ
  pub es : ℕ
  pub fs : ℕ
  pub gs : ℕ
  pub ss : ℕ
  pub tr : ℕ
  pub tss_descriptor : Bytes
  pub tss_entry : List ℕ

-- The descriptor that a selector names; `none` is a general protection fault, for a selector
-- beyond the limit.
abbrev pub descriptor_of : ℕ → Segments → Option Bytes
descriptor_of selector s =
    if ltb s.limit (selector / 8 * 8 + 7)
    then none
    else some (take 8 (drop (selector / 8 * 8) s.table))

-- Each register is loaded from its descriptor.
unfoldable pub gdt_install : Segments → Option Segments
gdt_install s₀ = do
  let s = record s₀ { limit = length gdt - 1; table = gdt }
  data_segment ← descriptor_of 0x10 s
  code_segment ← descriptor_of 0x08 s
  some (record s { ds = 0x10; es = 0x10; fs = 0x10; gs = 0x10; ss = 0x10; cs = 0x08 })

-- The stores to the descriptor, by the bytes of EAX and ECX.
unfoldable pub describe_tss : ℕ → Bytes → Option Bytes
describe_tss tss_addr b₀ = do
  let eax = u32 tss_addr >>> 16
  b₁ ← store b₀ 2 (u8 tss_addr)
  b₂ ← store b₁ 3 (u8 (tss_addr / 2 ^ 8))
  b₃ ← store b₂ 4 (u8 eax)
  b₄ ← store b₃ 7 (u8 (eax / 2 ^ 8))
  b₅ ← store b₄ 0 (u8 104)
  b₆ ← store b₅ 1 (u8 (104 / 2 ^ 8))
  store b₆ 6 0x00

-- The task state as double words, with the stores at the bytes 4 and 8; the first is of a word,
-- into cleared memory.
unfoldable pub fill_tss : ℕ → List ℕ → Option (List ℕ)
fill_tss kernel_stack_top w₀ = do
  w₁ ← rep_stos (104 / 4) 0 0 w₀
  w₂ ← store w₁ 1 0x10
  store w₂ 2 kernel_stack_top

-- `none` is a store outside of the two objects, and `false` a fault at `ltr`.
unfoldable pub tss_install : ℕ → ℕ → Segments → Option (Segments × Bool)
tss_install tss_addr kernel_stack_top s = do
  bytes ← describe_tss tss_addr s.tss_descriptor
  words ← fill_tss kernel_stack_top s.tss_entry
  let s' = record s { tss_descriptor = bytes; tss_entry = words }
  some (elim (descriptor_of 0x18 s') [
    | none ↦ (s', false)
    | some d ↦ (record s' { tr = 0x18 }, true)
  ])
