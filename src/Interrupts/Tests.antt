-- ===== src/Interrupts/Tests.antt =====
-- Runs of the set-up, and the theorems at inputs that meet their hypotheses.
use micro_kernel.Base.{
  ℕ, ◌<◌, ◌≡◌, refl, [], ◌∷◌, true, false, some, arith, length-replicate, get_elem?,
}
use micro_kernel.Console.{Trace, returned, outb}
use micro_kernel.Interrupts.{
  Idt, IdtEntry, initial, zero_entry, init_idt, isr_handler, end_interrupt,
}
use micro_kernel.Interrupts.Gate.{IsKeyboardGate}
use micro_kernel.Interrupts.Pic.{Chip, Pics, mask, icw4, drive, is_masked, vector}
use micro_kernel.Interrupts.Handler.{init_idt_routes}
use micro_kernel.Keyboard.{keyboard_handler, key, put}
use micro_kernel.Keyboard

abbrev set_up : ℕ → ℕ → ℕ → Chip
set_up offset cascade masked = record {
  expects = mask;
  offset = offset;
  cascade = cascade;
  masked = masked;
  in_service = false;
}

abbrev ready : Pics
ready = record { master = set_up 0x20 0x04 0xFD; slave = set_up 0x28 0x02 0xFF }

-- As the firmware may leave them: the vectors from 8 on, a word awaited, an interrupt in service.
abbrev firmware : Pics
firmware = record {
  master = record { expects = icw4; offset = 8; cascade = 4; masked = 0; in_service = true };
  slave = set_up 0x70 2 0x8F;
}

spurious :
    isr_handler 47 30 Keyboard.initial
    ≡ returned (outb 0xA0 0x20 ∷ outb 0x20 0x20 ∷ []) Keyboard.initial
unfolding isr_handler end_interrupt
spurious = refl

init_idt_routes_example :
    (t : Trace) × (s' : Idt) × (init_idt 0x104000 0x100040 initial ≡ returned t s')
    × (is_masked (drive t firmware) 1 ≡ false)
    × ((irq : ℕ)
        → irq < 16
        → is_masked (drive t firmware) irq ≡ false
        → (e : IdtEntry) × (get_elem? s'.table (vector (drive t firmware) irq) ≡ some e)
          × IsKeyboardGate 0x100040 e)
init_idt_routes_example =
    init_idt_routes 0x104000 0x100040 initial firmware (omega arith)
      (length-replicate 256 zero_entry)
