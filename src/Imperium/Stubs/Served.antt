-- ===== src/Imperium/Stubs/Served.antt =====
-- From the interrupt to the handler and back, through the table, the controllers and the stubs.
use micro_kernel.Base.{
  ℕ, zero, suc, ◌*◌, ◌≤◌, ◌+◌, ◌-◌, ◌/◌, ◌%◌, ◌^◌, ◌<◌, ◌≡◌, refl, ap, ◌∙◌, ◌++◌, some, arith, ◌==◌,
  length, get_elem?, true, false, u16, u32, Bytes, none, ◌>>=◌, get_or, [], ◌∷◌,
}
use micro_kernel.Console.{Trace, returned}
use micro_kernel.Cpu.{
  Cpu, cdecl, bytes_32, take_32, push_32, pop_32, push_all, pop_all, step, run_code, interrupt,
  raise, pop_frame, checked, iret, run_stub, returns, faults, names_code,
}
use micro_kernel.Cpu.Words.{IsCpu, IsRing0, word_32}
use micro_kernel.Imperium.Segments.{gdt}
use micro_kernel.Interrupts.{IdtEntry}
use micro_kernel.Interrupts.Gate.{handler_of}
use micro_kernel.Interrupts.Pic.{Pics, drive, vector}
use micro_kernel.Interrupts.Stub.Frame.{argument, bind_some}
use micro_kernel.Imperium.Idt.{IdtState, idt_install}
use micro_kernel.Imperium.Idt.Routes.{idt_routes}
use micro_kernel.Imperium.Stubs.{save, has_error_code}
use micro_kernel.Imperium.Stubs.Frame.{
  Event, exception, line, number, IsExpected, error_code, code_of, stub_of, words, frame,
  handler_frame,
}
use micro_kernel.Imperium.Stubs.Restore.{code_with, stub_restores}

-- The vector that an event raises: a line's is the controllers'.
abbrev pub raises : Event → Pics → ℕ
raises (exception n code) p = n
raises (line i) p = vector p i

abbrev pub IsEvent : Event → Type 0
IsEvent (exception n code) = n < 32
IsEvent (line i) = i < 16

number-lt : (e : Event) → IsEvent e → number e < 48
number-lt (exception n code) h = omega arith
number-lt (line i) h = omega arith

raises-number :
    (e : Event) (p : Pics)
    → IsEvent e
    → ((i : ℕ) → i < 16 → vector p i ≡ 32 + i)
    → raises e p ≡ number e
raises-number (exception n code) p h v = refl
raises-number (line i) p h v = v i h

-- After `idt_install`, with a table of 256 entries, 32-bit stub addresses, and whatever state the
-- controllers were in, for each of the sixteen lines and for each exception whose error code fits
-- its stub, on any processor that runs in ring 0, in a code segment of its descriptor table: the vector that is raised has a present gate in the kernel's code
-- segment to the vector's own stub. That code calls the handler with a pointer to the frame of the
-- interrupted processor (its data segment in the low half of the first word, its registers, the
-- vector, the error code or 0, and EIP, CS and EFLAGS). When the handler returns, whatever it leaves
-- in its scratch registers, the code goes back to the interrupted processor, with all registers,
-- ESP, the stack and DS as they were, interrupts enabled as EFLAGS says, and DS in ES, FS and GS.
pub interrupt_served :
    (stub : ℕ → ℕ) (idt_start : ℕ) (s : IdtState) (p : Pics) (gdt : Bytes) (c : Cpu) (back : ℕ)
    (e : Event) (scratch : Cpu → ℕ × ℕ × ℕ)
    → length s.table ≡ 256
    → ((n : ℕ) → stub n < 2 ^ 32)
    → IsCpu c
    → IsExpected e
    → IsEvent e
    → IsRing0 gdt c
    → (t : Trace) × (s' : IdtState) × (g : IdtEntry) × (called : Cpu) × (idt_install stub idt_start
          s
        ≡ returned t s')
      × (get_elem? s'.table (raises e (drive t p)) ≡ some g)
      × (handler_of g ≡ stub (number e))
      × (g.sel ≡ 0x08)
      × (g.flags ≡ 0x8E)
      × (run_code (stub_of e save) (raise (error_code e) (handler_of g) c) ≡ some called)
      × (argument (push_32 back called) ≡ some (u32 (c.esp + 2 ^ 32 - 56)))
      × (called.stack
          ≡ bytes_32 (u32 (c.esp + 2 ^ 32 - 56))
            ++ (words (frame (number e) (code_of (error_code e)) c) ++ c.stack))
      × (run_stub gdt (code_with e back (cdecl scratch)) (raise (error_code e) (handler_of g) c)
          ≡ some (
              returns (record c {
                es = c.ds;
                fs = c.ds;
                gs = c.ds;
                interrupts = c.eflags / 2 ^ 9 % 2 == 1;
              })))
interrupt_served stub idt_start s p gdt c back e scratch size fits is_cpu expected is_event ring =
    let (t, s', installs, _, _, _, _, gates, _, lines) = idt_routes stub idt_start s p size fits in
    let (g, at, handler, sel, flags) = gates (number e) (number-lt e is_event) in
    let (called, runs, reads, stack) = handler_frame c (handler_of g) back e is_cpu expected in
    let vectors = raises-number e (drive t p) is_event (λ i h. (lines i h).0) in
    (
      t,
      s',
      g,
      called,
      installs,
      ap (get_elem? s'.table) vectors ∙ at,
      handler,
      sel,
      flags,
      runs,
      reads,
      stack,
      stub_restores gdt c (handler_of g) back e scratch is_cpu expected ring,
    )

pops_too_far :
    (c : Cpu) (n stub back w : ℕ) (rest : Bytes) (scratch : Cpu → ℕ × ℕ × ℕ)
    → IsCpu c
    → has_error_code n ≡ true
    → c.stack ≡ bytes_32 w ++ rest
    → w < 2 ^ 32
    → (c' : Cpu) × ((run_code
            (code_with (exception n none) back (cdecl scratch))
            (raise none stub c)
          >>= pop_frame)
        ≡ some c')
      × (c'.eip ≡ c.cs)
      × (c'.cs ≡ c.eflags % 2 ^ 16)
      × (c'.eflags ≡ w)
      × (c'.stack ≡ rest)
unfolding pop_frame run_code step push_all pop_all push_32 pop_32 bytes_32 take_32 interrupt raise
pops_too_far c n stub back w rest scratch is_cpu has top word =
    rw (has, top)
      (
        _,
        refl,
        word_32 c.cs (omega arith),
        ap u16 (word_32 c.eflags is_cpu.eflags),
        word_32 w word,
        refl,
      )

get_or-beyond : (xs : Bytes) (i : ℕ) → length xs ≤ i → get_or xs i 0 ≡ 0
get_or-beyond [] i h = refl
get_or-beyond (x ∷ xs) zero h = absurd (omega arith)
get_or-beyond (x ∷ xs) (suc i) h = get_or-beyond xs i (omega arith)

-- The table has a code segment at the index 1 alone.
code_bits : (k : ℕ) → k % 2 ≡ 0 → (get_or gdt (k * 8 + 5) 0 / 2 ^ 3 % 4 == 3) ≡ false
code_bits zero even = refl
code_bits (suc zero) even = absurd (omega arith)
code_bits (suc (suc zero)) even = refl
code_bits (suc (suc (suc k))) even =
    rw (get_or-beyond gdt (suc (suc (suc k)) * 8 + 5) (omega arith)) refl

one_code_segment : (selector : ℕ) → selector / 8 % 2 ≡ 0 → names_code gdt selector ≡ false
unfolding names_code
one_code_segment selector even = ground (arith, code_bits (selector / 8) even)

-- For each vector that has the stub with an error code, when the processor pushes none: in ring 0
-- with the descriptor table of the file, with bit 3 of EFLAGS 0, as it always is, and on top of the
-- interrupted stack a word that does not ask for the virtual 8086 mode, `iret` at the stub's end
-- faults, whatever the handler leaves in its scratch registers: what it pops for CS is the low half
-- of the interrupted EFLAGS.
pub missing_error_code :
    (c : Cpu) (n stub back w : ℕ) (rest : Bytes) (scratch : Cpu → ℕ × ℕ × ℕ)
    → IsCpu c
    → has_error_code n ≡ true
    → c.eflags / 2 ^ 3 % 2 ≡ 0
    → c.stack ≡ bytes_32 w ++ rest
    → w < 2 ^ 32
    → w / 2 ^ 17 % 2 ≡ 0
    → run_stub gdt (code_with (exception n none) back (cdecl scratch)) (raise none stub c)
      ≡ some faults
unfolding run_stub iret checked
missing_error_code c n stub back w rest scratch is_cpu has bit_3 top word no_virtual =
    let (c', pops, _, cs, flags, _) =
      pops_too_far c n stub back w rest scratch is_cpu has top word in
    let code = code_with (exception n none) back (cdecl scratch) in
    let protected : (c'.eflags / 2 ^ 17 % 2 == 1) ≡ false = rw (flags, no_virtual) refl in
    let no_code : names_code gdt c'.cs ≡ false = one_code_segment c'.cs (omega (arith, cs)) in
    bind_some (run_code code (raise none stub c)) (checked gdt) c' pops
    ∙ (rw (protected, no_code) refl)
