-- ===== src/Interrupts/Stub/Frame.antt =====
-- What the stub passes to the handler, and where it returns to.
use micro_kernel.Base.{
  ℕ, ◌+◌, ◌*◌, ◌%◌, ◌^◌, ◌<◌, ◌≡◌, refl, ap, ◌∙◌, ◌++◌, Option, none, some, ◌>>=◌, arith, u16,
  Bytes, ◌/◌, ◌⊎◌, inl, inr, false, ◌==◌, Bool-cases,
}
use micro_kernel.Cpu.{
  Cpu, cdecl, bytes_16, bytes_32, take_16, take_32, push_16, push_32, pop_16, pop_32, push_all,
  pop_all, step, run_code, interrupt, pop_frame, Return, leaves, faults, checked, names_code, iret,
  run_stub,
}
use micro_kernel.Cpu.Words.{IsCpu, SameRegisters, word_32, word_16}
use micro_kernel.Interrupts.Stub.{save, isr_handler_common, isr_noerr_stub}

-- The first argument of a C function at its entry stands above the return address.
abbrev pub argument : Cpu → Option ℕ
argument c = do (back, s) ← take_32 c.stack; (v, s') ← take_32 s; some v

-- When the stub of any interrupt number calls the C handler, the first argument that the handler
-- reads is not the number: it is DS with the low half of EDI above it, since the stub pushes two
-- bytes for DS after the registers.
pub stub_argument :
    (c : Cpu) (n stub back : ℕ)
    → IsCpu c
    → (c' : Cpu) × (run_code (isr_noerr_stub n save) (interrupt stub c) ≡ some c')
      × (argument (push_32 back c') ≡ some (c.ds + 2 ^ 16 * (c.edi % 2 ^ 16)))
unfolding run_code step push_all push_16 push_32 bytes_16 bytes_32 take_32 interrupt
stub_argument c n stub back h = (_, refl, ap some (omega arith))

pub bind_some :
    (r : Option Cpu) (f : Cpu → Return) (c : Cpu)
    → (r >>= pop_frame) ≡ some c
    → (r >>= λ c'. (pop_frame c' >>= λ c''. some (f c''))) ≡ some (f c)
bind_some none f c e = cc e
bind_some (some c') f c e = rw e refl

-- A selector of ring 2 or 3.
outer_ring :
    (gdt : Bytes) (c : Cpu) (b : ℕ)
    → c.cs % 4 ≡ 2 + b
    → c.eflags / 2 ^ 17 % 2 ≡ 0
    → (checked gdt c ≡ faults) ⊎ (checked gdt c ≡ leaves (2 + b))
unfolding checked
outer_ring gdt c b level no_virtual =
    let protected : (c.eflags / 2 ^ 17 % 2 == 1) ≡ false = rw no_virtual refl in
    let outer : (c.cs % 4 == 0) ≡ false = ground arith in
    elim (Bool-cases (names_code gdt c.cs)) [
      | inl e ↦ inr (rw (protected, e, outer, level) refl)
      | inr e ↦ inl (rw (protected, e) refl)
    ]

-- Whatever the handler leaves in its scratch registers, `iret` pops the interrupted CS as EIP, the
-- low half of the interrupted EFLAGS as CS and the word that was on top of the interrupted stack as
-- EFLAGS: the stub drops four bytes too many before it. All general registers and DS are as they
-- were; the stack has lost its top word.
pub stub_pops :
    (c : Cpu) (n stub back w : ℕ) (s : Bytes) (scratch : Cpu → ℕ × ℕ × ℕ)
    → IsCpu c
    → c.stack ≡ bytes_32 w ++ s
    → w < 2 ^ 32
    → (c' : Cpu) × ((run_code
            (isr_noerr_stub n (isr_handler_common back (cdecl scratch)))
            (interrupt stub c)
          >>= pop_frame)
        ≡ some c')
      × (c'.eip ≡ c.cs)
      × (c'.cs ≡ c.eflags % 2 ^ 16)
      × (c'.eflags ≡ w)
      × (c'.stack ≡ s)
      × SameRegisters c' c
      × (c'.ds ≡ c.ds)
unfolding run_code step push_all pop_all push_16 push_32 pop_16 pop_32 bytes_16 bytes_32 take_16
    take_32 interrupt pop_frame
stub_pops c n stub back w s scratch h top hw = rw top (
  _,
  refl,
  word_32 c.cs (omega arith),
  ap u16 (word_32 c.eflags h.eflags),
  word_32 w hw,
  refl,
  record {
    eax = word_32 c.eax h.eax;
    ecx = word_32 c.ecx h.ecx;
    edx = word_32 c.edx h.edx;
    ebx = word_32 c.ebx h.ebx;
    ebp = word_32 c.ebp h.ebp;
    esi = word_32 c.esi h.esi;
    edi = word_32 c.edi h.edi;
  },
  word_16 c.ds c.eax _ h.ds,
)

-- In ring 0 and with the bits as the processor keeps them (bit 1 of EFLAGS is always 1), where the
-- word on top of the interrupted stack does not ask for the virtual 8086 mode: whatever the
-- descriptor table is, `iret` does not go back to ring 0. It faults, or leaves for the ring 2 or 3.
pub stub_lost :
    (gdt : Bytes) (c : Cpu) (n stub back w : ℕ) (s : Bytes) (scratch : Cpu → ℕ × ℕ × ℕ)
    → IsCpu c
    → c.eflags / 2 % 2 ≡ 1
    → c.stack ≡ bytes_32 w ++ s
    → w < 2 ^ 32
    → w / 2 ^ 17 % 2 ≡ 0
    → (r : Return) × (run_stub gdt
          (isr_noerr_stub n (isr_handler_common back (cdecl scratch)))
          (interrupt stub c)
        ≡ some r)
      × ((r ≡ faults) ⊎ (r ≡ leaves (2 + c.eflags % 2)))
unfolding run_stub iret
stub_lost gdt c n stub back w s scratch h bit_1 top hw no_virtual =
    let (c', pops, _, flags, word, _, _, _) = stub_pops c n stub back w s scratch h top hw in
    let code = isr_noerr_stub n (isr_handler_common back (cdecl scratch)) in
    (
      checked gdt c',
      bind_some (run_code code (interrupt stub c)) (checked gdt) c' pops,
      outer_ring gdt c' (c.eflags % 2) (omega (arith, flags))
          (ap (λ v. v / 2 ^ 17 % 2) word ∙ no_virtual),
    )
