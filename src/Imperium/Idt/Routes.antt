-- ===== src/Imperium/Idt/Routes.antt =====
-- Where the interrupts go.
use micro_kernel.Base.{
  [], ◌∷◌, ℕ, zero, suc, ◌+◌, ◌*◌, ◌/◌, ◌^◌, ◌≤◌, ◌<◌, ◌≡◌, refl, List, true, ltb, leb, ◌&&◌,
  if◌then◌else◌, some, arith, length, length-set, get_elem?, set, get_elem?-set_self,
  get_elem?-set_ne, u16,
}
use micro_kernel.Base.Bits.{passes, passes_at}
use micro_kernel.Console.{Trace, returned, outb}
use micro_kernel.Interrupts.{IdtEntry}
use micro_kernel.Interrupts.Gate.{handler_of}
use micro_kernel.Interrupts.Pic.{Pics, drive, vector, is_masked}
use micro_kernel.Imperium.Idt.{
  IdtState, set_idt_gate, set_gates, populate_idt, pic_remap, idt_install,
}

abbrev pub entry_of : (ℕ → ℕ) → ℕ → IdtEntry
entry_of stub n = record {
  base_lo = u16 (stub n);
  sel = 0x08;
  always0 = 0;
  flags = 0x8E;
  base_hi = u16 (stub n / 2 ^ 16);
}

set_gates_lem :
    (left n j : ℕ) (stub : ℕ → ℕ) (table : List IdtEntry)
    → n + left ≤ 256
    → length table ≡ 256
    → get_elem? (set_gates left n stub table) j
      ≡ (if leb n j && ltb j (n + left) then some (entry_of stub j) else get_elem? table j)
unfolding set_gates set_idt_gate
set_gates_lem zero n j stub table h size = ground arith
set_gates_lem (suc left) n j stub table h size = ground (
  arith,
  set_gates_lem left (n + 1) j stub (set table n (entry_of stub n)),
  length-set table n (entry_of stub n),
  get_elem?-set_self table n (entry_of stub n),
  get_elem?-set_ne table n j (entry_of stub n),
)

-- The writes of `pic_remap`.
abbrev writes : Trace
writes =
    outb 0x20 0x11
    ∷ outb 0xA0 0x11
    ∷ outb 0x21 0x20
    ∷ outb 0xA1 0x28
    ∷ outb 0x21 0x04
    ∷ outb 0xA1 0x02
    ∷ outb 0x21 0x01
    ∷ outb 0xA1 0x01
    ∷ outb 0x21 0xFF
    ∷ outb 0xA1 0xFF
    ∷ []

-- From a table of 256 entries, with 32-bit stub addresses, and in whatever state the controllers
-- are: `idt_install` returns and loads the table with interrupts enabled. Each vector below 48 has
-- a present gate of the kernel's code segment to its own stub, and the gates from 48 on are as
-- they were. The line `i` of the controllers raises the vector 32 + i, which has the stub of that
-- line; and every line is masked.
pub idt_routes :
    (stub : ℕ → ℕ) (idt_start : ℕ) (s : IdtState) (p : Pics)
    → length s.table ≡ 256
    → ((n : ℕ) → stub n < 2 ^ 32)
    → (t : Trace) × (s' : IdtState) × (idt_install stub idt_start s ≡ returned t s')
      × (s'.loaded ≡ true)
      × (s'.interrupts ≡ true)
      × (s'.base ≡ idt_start)
      × (s'.limit + 1 ≡ 8 * 256)
      × ((n : ℕ)
          → n < 48
          → (e : IdtEntry) × (get_elem? s'.table n ≡ some e)
            × (handler_of e ≡ stub n)
            × (e.sel ≡ 0x08)
            × (e.flags ≡ 0x8E))
      × ((n : ℕ) → 48 ≤ n → get_elem? s'.table n ≡ get_elem? s.table n)
      × ((i : ℕ) → i < 16 → (vector (drive t p) i ≡ 32 + i) × (is_masked (drive t p) i ≡ true))
unfolding idt_install populate_idt pic_remap
idt_routes stub idt_start s p size fits =
    let at : (n : ℕ)
        → get_elem? (set_gates 48 0 stub s.table) n
          ≡ (if leb 0 n && ltb n (0 + 48) then some (entry_of stub n) else get_elem? s.table n) =
      λ n. set_gates_lem 48 0 n stub s.table (omega arith) size in
    (
      _,
      _,
      refl,
      refl,
      refl,
      refl,
      omega arith,
      λ n h. let addr = fits n in (entry_of stub n, ground (arith, at n), omega arith, refl, refl),
      λ n h. ground (arith, at n),
      λ i h. (ground arith, passes_at (is_masked (drive writes p)) 16 i h (unfold passes in refl)),
    )
