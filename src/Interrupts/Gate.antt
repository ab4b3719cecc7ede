-- ===== src/Interrupts/Gate.antt =====
-- The table that `init_idt` leaves.
use micro_kernel.Base.{
  ℕ, zero, suc, ◌+◌, ◌*◌, ◌/◌, ◌^◌, ◌≤◌, ◌<◌, ◌≡◌, ◌≢◌, refl, sym, ◌∙◌, List, true, ltb, leb, ◌&&◌,
  if◌then◌else◌, some, arith, length, length-set, get_elem?, set, get_elem?-set_self,
  get_elem?-set_ne, u8, u32,
}
use micro_kernel.Base.Bits.{bit_and_word}
use micro_kernel.Console.{Trace, returned}
use micro_kernel.Interrupts.{
  IdtEntry, Idt, zero_entry, gate, set_idt_gate, clear_table, init_pic, init_idt,
}

-- The address that a gate's two halves hold.
abbrev pub handler_of : IdtEntry → ℕ
handler_of e = e.base_lo + 2 ^ 16 * e.base_hi

-- The halves of a 32-bit address give it back, in 16 bits each.
pub handler_of-gate :
    (base sel flags : ℕ)
    → base < 2 ^ 32
    → (handler_of (gate base sel flags) ≡ base)
      × ((gate base sel flags).base_lo < 2 ^ 16)
      × ((gate base sel flags).base_hi < 2 ^ 16)
unfolding gate
handler_of-gate base sel flags h = (
  omega (arith, bit_and_word base, bit_and_word (base / 2 ^ 16)),
  omega (arith, bit_and_word base),
  omega (arith, bit_and_word (base / 2 ^ 16)),
)

-- The loop writes the empty gate at the indices that are left, and nothing else.
clear_table_lem :
    (left i j : ℕ) (table : List IdtEntry)
    → i + left ≤ 256
    → length table ≡ 256
    → get_elem? (clear_table left i table) j
      ≡ (if leb i j && ltb j (i + left) then some zero_entry else get_elem? table j)
unfolding clear_table set_idt_gate gate
clear_table_lem zero i j table h n = ground arith
clear_table_lem (suc left) i j table h n = ground (
  arith,
  clear_table_lem left (i + 1) j (set table (u8 i) zero_entry),
  length-set table i zero_entry,
  get_elem?-set_self table i zero_entry,
  get_elem?-set_ne table i j zero_entry,
)

-- The keyboard's gate, present, in the kernel's code segment, with interrupts off.
abbrev pub IsKeyboardGate : ℕ → IdtEntry → Type 0
IsKeyboardGate isr33_addr e =
    (handler_of e ≡ isr33_addr) × (e.sel ≡ 0x08) × (e.flags ≡ 0x8E) × (e.always0 ≡ 0)

-- What `init_idt` makes of the table, whatever it held.
pub record IsInstalled (idt_addr isr33_addr : ℕ) (s : Idt) : Type 0 where
  pub size : length s.table ≡ 256
  pub limit : s.idtp.limit + 1 ≡ 8 * 256
  pub base : s.idtp.base ≡ u32 idt_addr
  pub loaded : s.loaded ≡ some s.idtp
  pub enabled : s.enabled ≡ true
  pub entry : IdtEntry
  pub at_33 : get_elem? s.table 33 ≡ some entry
  pub keyboard : IsKeyboardGate isr33_addr entry
  pub others : (j : ℕ) → j < 256 → j ≢ 33 → get_elem? s.table j ≡ some zero_entry

length-clear_table :
    (left i : ℕ) (table : List IdtEntry) → length (clear_table left i table) ≡ length table
unfolding clear_table set_idt_gate
length-clear_table zero i table = refl
length-clear_table (suc left) i table =
    length-clear_table left (i + 1) _ ∙ length-set table (u8 i) (gate 0 0 0)

-- With a 32-bit stub address and a table of 256 entries `init_idt` returns, and leaves a table of
-- 256 entries, loaded with its address (as a 32-bit number) and the limit of its last byte, with interrupts enabled.
-- Entry 33 is the present gate of the keyboard's stub, and every other entry is the empty gate,
-- which is not present.
pub init_idt-IsInstalled :
    (idt_addr isr33_addr : ℕ) (s : Idt)
    → isr33_addr < 2 ^ 32
    → length s.table ≡ 256
    → (t : Trace) × (s' : Idt) × (init_idt idt_addr isr33_addr s ≡ returned t s')
      × IsInstalled idt_addr isr33_addr s'
unfolding init_idt init_pic set_idt_gate
init_idt-IsInstalled idt_addr isr33_addr s h n =
    let cleared = clear_table 256 0 s.table in
    let size : length cleared ≡ 256 = length-clear_table 256 0 s.table ∙ n in
    let new = gate isr33_addr 0x08 0x8E in
    (
      _,
      _,
      refl,
      record {
        size = length-set cleared 33 new ∙ size;
        limit = refl;
        base = refl;
        loaded = refl;
        enabled = refl;
        entry = new;
        at_33 = get_elem?-set_self cleared 33 new (omega arith);
        keyboard = (
          (handler_of-gate isr33_addr 0x08 0x8E h).0,
          unfold gate in refl,
          unfold gate in refl,
          unfold gate in refl,
        );
        others = λ j hj ne.
            get_elem?-set_ne cleared 33 j new (λ e. ne (sym e))
            ∙ ground (arith, clear_table_lem 256 0 j s.table (omega arith) n);
      },
    )
