-- ===== src/Interrupts.antt =====
-- kernel/idth.c and kernel/idt.h: the interrupt table, the interrupt controllers' set-up and the
-- common handler.
pub mod Gate
pub mod Pic
pub mod Handler
pub mod Stub
mod Tests
use micro_kernel.Base.{
  ℕ, zero, suc, ◌+◌, ◌-◌, ◌*◌, Bool, true, false, Option, none, some, List, bit_and, if◌then◌else◌,
  ◌==◌, leb, set, replicate, u8, u16, u32, ◌>>>◌,
}
use micro_kernel.Console.{Run, outb, pure, ◌>>=◌, ◌>>◌, call}
use micro_kernel.Keyboard.{Cursor, keyboard_handler}

-- `struct idt_entry`.
pub record IdtEntry : Type 0 where
  pub base_lo : ℕ
  pub sel : ℕ
  pub always0 : ℕ
  pub flags : ℕ
  pub base_hi : ℕ

abbrev pub idt_entries : ℕ
idt_entries = 256

-- `struct idt_ptr`.
pub record IdtPtr : Type 0 where
  pub limit : ℕ
  pub base : ℕ

-- The table, the pointer structure, what the processor has loaded by `lidt`, and its interrupt flag.
pub record Idt : Type 0 where
  pub table : List IdtEntry
  pub idtp : IdtPtr
  pub loaded : Option IdtPtr
  pub enabled : Bool

abbrev pub zero_entry : IdtEntry
zero_entry = record { base_lo = 0; sel = 0; always0 = 0; flags = 0; base_hi = 0 }

abbrev pub initial : Idt
initial = record {
  table = replicate idt_entries zero_entry;
  idtp = record { limit = 0; base = 0 };
  loaded = none;
  enabled = false;
}

unfoldable pub gate : ℕ → ℕ → ℕ → IdtEntry
gate base sel flags = record {
  base_lo = bit_and base 0xFFFF;
  sel = sel;
  always0 = 0;
  flags = flags;
  base_hi = bit_and (base >>> 16) 0xFFFF;
}

-- A `u8` index is always in the table of 256.
unfoldable pub set_idt_gate : ℕ → ℕ → ℕ → ℕ → List IdtEntry → List IdtEntry
set_idt_gate num base sel flags table = set table num (gate base sel flags)

-- The loop that clears the table, from the index `i` with the rounds that are left.
unfoldable pub clear_table : ℕ → ℕ → List IdtEntry → List IdtEntry
clear_table zero i table = table
clear_table (suc left) i table = clear_table left (i + 1) (set_idt_gate (u8 i) 0 0 0 table)

unfoldable pub init_pic : Run (Unit {0})
init_pic = do
  call (outb 0x20 0x11)
  call (outb 0x21 0x20)
  call (outb 0x21 0x04)
  call (outb 0x21 0x01)
  call (outb 0xA0 0x11)
  call (outb 0xA1 0x28)
  call (outb 0xA1 0x02)
  call (outb 0xA1 0x01)
  call (outb 0x21 0xFD)
  call (outb 0xA1 0xFF)

-- `idt_addr` and `isr33_addr` are the addresses of the table and of the keyboard's stub.
unfoldable pub init_idt : ℕ → ℕ → Idt → Run Idt
init_idt idt_addr isr33_addr s = do
  let idtp : IdtPtr = record { limit = u16 (8 * idt_entries - 1); base = u32 idt_addr }
  let cleared = clear_table idt_entries 0 s.table
  init_pic
  pure (record {
    table = set_idt_gate 33 isr33_addr 0x08 0x8E cleared;
    idtp = idtp;
    loaded = some idtp;
    enabled = true;
  })

-- The end-of-interrupt commands.
unfoldable pub end_interrupt : ℕ → Run (Unit {0})
end_interrupt int_num = do
  if leb 40 int_num then call (outb 0xA0 0x20) else pure tt
  call (outb 0x20 0x20)

-- `scancode` is what the keyboard's port returns if it is read.
unfoldable pub isr_handler : ℕ → ℕ → Cursor → Run Cursor
isr_handler int_num scancode s = do
  s' ← (if int_num == 33 then keyboard_handler scancode s else pure s)
  end_interrupt int_num
  pure s'
