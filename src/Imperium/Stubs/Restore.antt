-- ===== src/Imperium/Stubs/Restore.antt =====
-- What the stubs leave behind.
use micro_kernel.Base.{
  ℕ, zero, suc, ◌+◌, ◌*◌, ◌/◌, ◌%◌, ◌^◌, ◌<◌, ◌≡◌, ◌∙◌, ap, List, some, ◌>>=◌, Bytes, arith, u8,
  u16, u32, ◌==◌,
}
use micro_kernel.Cpu.{
  Cpu, Instruction, cdecl, low_16, bytes_32, take_32, push_32, pop_32, push_all, pop_all, step,
  run_code, interrupt, raise, pop_frame, checked, iret, run_stub, Return,
}
use micro_kernel.Cpu.Words.{IsCpu, IsRing0, checked-IsRing0, word_32}
use micro_kernel.Interrupts.Stub.Frame.{bind_some}
use micro_kernel.Imperium.Stubs.{isr_common_stub, irq_common_stub, isr, irq}
use micro_kernel.Imperium.Stubs.Frame.{
  Event, exception, line, IsExpected, error_code, entered, enters, below, below_lem,
}

-- ESP after pops in a row.
abbrev pub above : ℕ → ℕ → ℕ
above zero e = e
above (suc k) e = u32 (above k e + 4)

above_lem : (k e : ℕ) → e < 2 ^ 32 → above k e ≡ u32 (e + 4 * k)
above_lem zero e he = omega arith
above_lem (suc k) e he = omega (arith, above_lem k e he)

-- The 16 words that are on the stack at most, and what drops them.
esp_same : (e : ℕ) → e < 2 ^ 32 → above 3 (u32 (above 11 (below 16 e) + 8)) ≡ e
esp_same e h =
    let down = below_lem 16 e h (omega arith) in
    let up = above_lem 11 (below 16 e) (omega (arith, down)) in
    let last = above_lem 3 (u32 (above 11 (below 16 e) + 8)) (omega arith) in
    omega (arith, down, up, last)

low :
    (r v : ℕ)
    → r < 2 ^ 32
    → v < 2 ^ 16
    → u16 (
        u8 (low_16 r v)
        + 2 ^ 8 * u8 (low_16 r v / 2 ^ 8)
        + 2 ^ 16 * u8 (low_16 r v / 2 ^ 16)
        + 2 ^ 24 * u8 (low_16 r v / 2 ^ 24))
      ≡ v
low r v hr hv = omega arith

cs_same :
    (v : ℕ)
    → v < 2 ^ 16
    → u16 (u8 v + 2 ^ 8 * u8 (v / 2 ^ 8) + 2 ^ 16 * u8 (v / 2 ^ 16) + 2 ^ 24 * u8 (v / 2 ^ 24)) ≡ v
cs_same v h = omega arith

-- The interrupted processor again.
abbrev pub resumed : Cpu → Cpu
resumed c = record c { es = c.ds; fs = c.ds; gs = c.ds; interrupts = c.eflags / 2 ^ 9 % 2 == 1 }

returns :
    (c : Cpu) (stub back : ℕ) (e : Event) (scratch : Cpu → ℕ × ℕ × ℕ)
    → IsCpu c
    → (run_code (isr_common_stub back (cdecl scratch)) (entered stub e c) >>= pop_frame)
      ≡ some (resumed c)
unfolding pop_frame run_code step push_all pop_all push_32 pop_32 bytes_32 take_32 interrupt
returns c stub back e scratch h = λ i. some record {
  eax = word_32 c.eax h.eax i;
  ecx = word_32 c.ecx h.ecx i;
  edx = word_32 c.edx h.edx i;
  ebx = word_32 c.ebx h.ebx i;
  esp = esp_same c.esp h.esp i;
  ebp = word_32 c.ebp h.ebp i;
  esi = word_32 c.esi h.esi i;
  edi = word_32 c.edi h.edi i;
  ds = low c.eax c.ds h.eax h.ds i;
  es = low c.eax c.ds h.eax h.ds i;
  fs = low c.eax c.ds h.eax h.ds i;
  gs = low c.eax c.ds h.eax h.ds i;
  eip = word_32 c.eip h.eip i;
  cs = cs_same c.cs h.cs i;
  eflags = word_32 c.eflags h.eflags i;
  interrupts = word_32 c.eflags h.eflags i / 2 ^ 9 % 2 == 1;
  stack = c.stack;
}

-- The whole code that the event starts, with the handler that it calls.
abbrev pub code_with : Event → ℕ → (Cpu → Cpu) → List Instruction
code_with (exception n code) back handler = isr n (isr_common_stub back handler)
code_with (line i) back handler = irq i (irq_common_stub back handler)

stub_pops :
    (c : Cpu) (stub back : ℕ) (e : Event) (scratch : Cpu → ℕ × ℕ × ℕ)
    → IsCpu c
    → IsExpected e
    → (run_code (code_with e back (cdecl scratch)) (raise (error_code e) stub c) >>= pop_frame)
      ≡ some (resumed c)
unfolding raise push_32 interrupt bytes_32 run_code step
stub_pops c stub back (exception n code) scratch h fits =
    ap (λ r. r >>= pop_frame) (enters (exception n code) _ stub c fits)
    ∙ returns c stub back (exception n code) scratch h
stub_pops c stub back (line i) scratch h fits = returns c stub back (line i) scratch h

resumed-IsRing0 : (gdt : Bytes) (c : Cpu) → IsRing0 gdt c → IsRing0 gdt (resumed c)
resumed-IsRing0 gdt c h = record { code = h.code; ring = h.ring; protected = h.protected }

-- On a processor in ring 0: for each vector whose stub fits its error code and for each line, the stub ends and the
-- interrupted processor goes on as it was: all registers, ESP, EIP, CS, EFLAGS, DS and the stack
-- are the same whatever the handler leaves in its scratch registers, interrupts are enabled as
-- EFLAGS says, and ES, FS and GS hold DS.
pub stub_restores :
    (gdt : Bytes) (c : Cpu) (stub back : ℕ) (e : Event) (scratch : Cpu → ℕ × ℕ × ℕ)
    → IsCpu c
    → IsExpected e
    → IsRing0 gdt c
    → run_stub gdt (code_with e back (cdecl scratch)) (raise (error_code e) stub c)
      ≡ some (Return.returns (resumed c))
unfolding run_stub iret
stub_restores gdt c stub back e scratch h fits ring =
    let pops = stub_pops c stub back e scratch h fits in
    bind_some (run_code (code_with e back (cdecl scratch)) (raise (error_code e) stub c))
      (checked gdt) (resumed c) pops
    ∙ ap some (checked-IsRing0 gdt (resumed c) (resumed-IsRing0 gdt c ring))
