-- ===== src/Interrupts/Handler.antt =====
-- The lines that the set-up leaves open, and the end of each interrupt.
use micro_kernel.Base.{
  ℕ, ◌+◌, ◌-◌, ◌/◌, ◌%◌, ◌^◌, ◌<◌, ◌≡◌, refl, ap, sym, ◌∙◌, [], ◌∷◌, Bool, true, false, some, arith,
  ◌==◌, ltb, if◌then◌else◌, get_elem?, length, append-nil,
}
use micro_kernel.Base.Bits.{passes, passes_at}
use micro_kernel.Console.Laws.{trace_of}
use micro_kernel.Console.{
  Trace, Run, returned, outb, write_char_at, write_vga_at, clear_screen, panic, ◌>>=◌, ◌>>◌,
}
use micro_kernel.Interrupts.{IdtEntry, Idt, init_idt}
use micro_kernel.Interrupts.Gate.{IsKeyboardGate, init_idt-IsInstalled}
use micro_kernel.Interrupts.Pic.{Pics, drive, is_masked, vector, IsReady, init_pic-IsReady}
use micro_kernel.Keyboard.{Cursor}

-- The calls but those of a port.
abbrev pub shown : Trace → Trace
shown [] = []
shown (outb port v ∷ t) = shown t
shown (write_vga_at w row col attr ∷ t) = write_vga_at w row col attr ∷ shown t
shown (write_char_at c row col attr ∷ t) = write_char_at c row col attr ∷ shown t
shown (clear_screen ∷ t) = clear_screen ∷ shown t
shown (panic message ∷ t) = panic message ∷ shown t

-- The keyboard's calls leave the controllers alone, and write to no port.
abbrev pub Quiet : Run Cursor → Type 0
Quiet r =
    (t : Trace) × (s : Cursor) × (r ≡ returned t s) × ((p : Pics) → drive t p ≡ p) × (shown t ≡ t)

-- Line `irq` is raised: the chip has it in service, and a line of the slave holds the master's too.
abbrev pub accept : ℕ → Pics → Pics
accept irq p =
    if ltb irq 8 then record p { master = record p.master { in_service = true } } else record {
      master = record p.master { in_service = true };
      slave = record p.slave { in_service = true };
    }

pub vector_lem : (p : Pics) (irq : ℕ) → IsReady p → irq < 16 → vector p irq ≡ 32 + irq
vector_lem p irq ready h = ground arith

-- The bits of the two masks, by a table.
abbrev pub open_line : ℕ → Bool
open_line irq = if irq / 8 == 0 then 253 / 2 ^ irq % 2 == 1 else 255 / 2 ^ (irq - 8) % 2 == 1

is_masked-open_line : (p : Pics) (irq : ℕ) → IsReady p → irq < 16 → is_masked p irq ≡ open_line irq
is_masked-open_line p irq ready h = rw (ready.master_masked, ready.slave_masked) refl

only_keyboard : (irq : ℕ) → irq < 16 → open_line irq ≡ false → irq ≡ 1
only_keyboard irq h e =
    ground (
      arith,
      passes_at (λ n. if open_line n then true else n == 1) 16 irq h (unfold passes in refl),
    )

-- After the set-up with a 32-bit stub address and a table of 256 entries, whatever these and the
-- controllers held, each of the sixteen lines that is not masked raises a vector whose entry in
-- the table is a present gate with the keyboard's stub, in the kernel's code segment; and line 1
-- is not masked. No line that is open reaches an empty gate.
pub init_idt_routes :
    (idt_addr isr33_addr : ℕ) (s : Idt) (p : Pics)
    → isr33_addr < 2 ^ 32
    → length s.table ≡ 256
    → (t : Trace) × (s' : Idt) × (init_idt idt_addr isr33_addr s ≡ returned t s')
      × (is_masked (drive t p) 1 ≡ false)
      × ((irq : ℕ)
          → irq < 16
          → is_masked (drive t p) irq ≡ false
          → (e : IdtEntry) × (get_elem? s'.table (vector (drive t p) irq) ≡ some e)
            × IsKeyboardGate isr33_addr e)
unfolding init_idt
init_idt_routes idt_addr isr33_addr s p h n =
    let installed = init_idt-IsInstalled idt_addr isr33_addr s h n in
    let ready = init_pic-IsReady p in
    let calls : trace_of (init_idt idt_addr isr33_addr s) ≡ ready.0 =
      rw ready.1 (append-nil ready.0) in
    let same : installed.0 ≡ ready.0 = sym (ap trace_of installed.2) ∙ calls in
    let is_ready : IsReady (drive installed.0 p) = rw same ready.2 in
    let ins = installed.3 in
    (
      installed.0,
      installed.1,
      installed.2,
      is_masked-open_line (drive installed.0 p) 1 is_ready (omega arith),
      λ irq below unmasked. (
        ins.entry,
        ap (get_elem? installed.1.table) (
              vector_lem (drive installed.0 p) irq is_ready below
              ∙ ap (λ i. 32 + i)
                  (only_keyboard irq below
                    (sym (is_masked-open_line _ irq is_ready below) ∙ unmasked)))
            ∙ ins.at_33,
        ins.keyboard,
      ),
    )
