-- ===== src/Interrupts/Stub/Lost.antt =====
-- The stub and the handler together.
use micro_kernel.Base.{
  ℕ, ◌+◌, ◌*◌, ◌%◌, ◌^◌, ◌≡◌, refl, ap, ◌∙◌, [], ◌∷◌, some, arith, ◌==◌, leb, if◌then◌else◌,
  Bool-cases, inl, inr, true, false,
}
use micro_kernel.Console.{returned, outb}
use micro_kernel.Cpu.{Cpu, push_32, run_code, interrupt}
use micro_kernel.Cpu.Words.{IsCpu}
use micro_kernel.Interrupts.{isr_handler, end_interrupt}
use micro_kernel.Interrupts.Stub.{save, isr_noerr_stub}
use micro_kernel.Interrupts.Stub.Frame.{argument, stub_argument}
use micro_kernel.Keyboard.{Cursor}

not_33 : (k : ℕ) → (16 + 2 ^ 16 * k == 33) ≡ false
not_33 k = ground arith

lost :
    (k scancode : ℕ) (s : Cursor)
    → isr_handler (16 + 2 ^ 16 * k) scancode s
      ≡ returned (if k == 0 then outb 0x20 0x20 ∷ [] else outb 0xA0 0x20 ∷ outb 0x20 0x20 ∷ []) s
unfolding isr_handler end_interrupt
lost k scancode s = elim (Bool-cases (k == 0)) [
  | inl e ↦
      let none_above : leb 40 (16 + 2 ^ 16 * k) ≡ false = ground arith in
      rw (not_33 k, none_above, e) refl
  | inr e ↦
      let above : leb 40 (16 + 2 ^ 16 * k) ≡ true = ground arith in rw (not_33 k, above, e) refl
]

-- The keyboard's interrupt in the kernel, where DS is 0x10: the handler is called with a number
-- that is not 33, so that for each scancode it returns with the cursor as it was and without
-- reading the keyboard's port; it ends the interrupt at the slave controller, too, unless the low
-- half of EDI is 0.
pub keyboard_lost :
    (c : Cpu) (stub back scancode : ℕ) (s : Cursor)
    → IsCpu c
    → c.ds ≡ 0x10
    → (c' : Cpu) × (n : ℕ) × (run_code (isr_noerr_stub 33 save) (interrupt stub c) ≡ some c')
      × (argument (push_32 back c') ≡ some n)
      × (isr_handler n scancode s
          ≡ returned
              (if c.edi % 2 ^ 16 == 0
                then outb 0x20 0x20 ∷ []
                else outb 0xA0 0x20 ∷ outb 0x20 0x20 ∷ [])
              s)
keyboard_lost c stub back scancode s h kernel_ds =
    let (c', runs, reads) = stub_argument c 33 stub back h in
    let k = c.edi % 2 ^ 16 in
    (
      c',
      16 + 2 ^ 16 * k,
      runs,
      reads ∙ ap (λ d. some (d + 2 ^ 16 * k)) kernel_ds,
      lost k scancode s,
    )
