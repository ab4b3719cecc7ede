-- ===== src/Imperium/Idt.antt =====
-- main.core.asm, part 4: the interrupt table and the interrupt controllers.
pub mod Routes
use micro_kernel.Base.{ℕ, zero, suc, ◌+◌, ◌-◌, ◌*◌, List, set, Bool, true, u16, ◌>>>◌}
use micro_kernel.Console.{Run, outb, pure, ◌>>=◌, ◌>>◌, call}
use micro_kernel.Interrupts.{IdtEntry}

-- The table, the pointer structure at `idt_ptr`, whether `lidt` has loaded it, and the interrupt
-- flag.
pub record IdtState : Type 0 where
  pub table : List IdtEntry
  pub limit : ℕ
  pub base : ℕ
  pub loaded : Bool
  pub interrupts : Bool

-- `SET_IDT_GATE`: the five stores to one entry.
unfoldable pub set_idt_gate : ℕ → ℕ → ℕ → ℕ → List IdtEntry → List IdtEntry
set_idt_gate n addr sel flags table = set table n (record {
  base_lo = u16 addr;
  sel = sel;
  always0 = 0;
  flags = flags;
  base_hi = u16 (addr >>> 16);
})

-- The 48 gates from the vector `n` on, with the number that is left. `stub` has the addresses of
-- `isr0` to `isr31` and, from 32 on, of `irq0` to `irq15`.
unfoldable pub set_gates : ℕ → ℕ → (ℕ → ℕ) → List IdtEntry → List IdtEntry
set_gates zero n stub table = table
set_gates (suc left) n stub table =
    set_gates left (n + 1) stub (set_idt_gate n (stub n) 0x08 0x8E table)

unfoldable pub populate_idt : (ℕ → ℕ) → List IdtEntry → List IdtEntry
populate_idt stub table = set_gates 48 0 stub table

unfoldable pub pic_remap : Run (Unit {0})
pic_remap = do
  call (outb 0x20 0x11)
  call (outb 0xA0 0x11)
  call (outb 0x21 0x20)
  call (outb 0xA1 0x28)
  call (outb 0x21 0x04)
  call (outb 0xA1 0x02)
  call (outb 0x21 0x01)
  call (outb 0xA1 0x01)
  call (outb 0x21 0xFF)
  call (outb 0xA1 0xFF)

-- `idt_start` is the address of the table.
unfoldable pub idt_install : (ℕ → ℕ) → ℕ → IdtState → Run IdtState
idt_install stub idt_start s = do
  let table = populate_idt stub s.table
  pic_remap
  pure (record {
    table = table;
    limit = 256 * 8 - 1;
    base = idt_start;
    loaded = true;
    interrupts = true;
  })
