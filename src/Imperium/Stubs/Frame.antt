-- ===== src/Imperium/Stubs/Frame.antt =====
-- What the stubs pass to the handlers.
use micro_kernel.Base.{
  ℕ, zero, suc, ◌+◌, ◌-◌, ◌*◌, ◌^◌, ◌<◌, ◌≡◌, refl, ap, ◌∙◌, Bool, true, false, List, [], ◌∷◌, ◌++◌,
  Option, none, some, arith, u32, Bytes,
}
use micro_kernel.Cpu.{
  Cpu, low_16, bytes_32, push_32, push_all, Instruction, step, run_code, interrupt, raise, take_32,
}
use micro_kernel.Cpu.Words.{IsCpu}
use micro_kernel.Imperium.Stubs.{save, isr, irq, has_error_code}
use micro_kernel.Interrupts.Stub.Frame.{argument}

abbrev pub words : List ℕ → Bytes
words [] = []
words (v ∷ vs) = bytes_32 v ++ words vs

-- Whether the processor has pushed an error code, and the word in its place.
abbrev pub is_given : Option ℕ → Bool
is_given none = false
is_given (some code) = true

abbrev pub code_of : Option ℕ → ℕ
code_of none = 0
code_of (some code) = code

-- The frame of an interrupted processor, from the lowest address: the data segment, the registers
-- in the order of `pushad`, the number, the error code, and what the processor itself has pushed.
abbrev pub frame : ℕ → ℕ → Cpu → List ℕ
frame n code c =
    low_16 c.eax c.ds
    ∷ c.edi
    ∷ c.esi
    ∷ c.ebp
    ∷ u32 (c.esp + 2 ^ 32 - 20)
    ∷ c.ebx
    ∷ c.edx
    ∷ c.ecx
    ∷ c.eax
    ∷ n
    ∷ code
    ∷ c.eip
    ∷ c.cs
    ∷ c.eflags
    ∷ []

-- ESP after pushes in a row.
abbrev pub below : ℕ → ℕ → ℕ
below zero e = e
below (suc k) e = u32 (below k e + 2 ^ 32 - 4)

pub below_lem : (k e : ℕ) → e < 2 ^ 32 → k < 2 ^ 20 → below k e ≡ u32 (e + 2 ^ 32 - 4 * k)
below_lem zero e he h = omega arith
below_lem (suc k) e he h = omega (arith, below_lem k e he (omega arith))

-- What interrupts the processor: an exception, with its error code if it has one, or a line of
-- the interrupt controllers.
pub data Event : Type 0 where
  exception : ℕ → Option ℕ → Event
  line : ℕ → Event

abbrev pub number : Event → ℕ
number (exception n code) = n
number (line i) = 32 + i

abbrev pub error_code : Event → Option ℕ
error_code (exception n code) = code
error_code (line i) = none

-- The vectors have the stub that their error code asks for.
abbrev pub IsExpected : Event → Type 0
IsExpected (exception n code) = has_error_code n ≡ is_given code
IsExpected (line i) = Unit

-- The code that the event starts.
abbrev pub stub_of : Event → List Instruction → List Instruction
stub_of (exception n code) = isr n
stub_of (line i) = irq i

-- The processor where the common stub begins.
abbrev pub entered : ℕ → Event → Cpu → Cpu
entered stub e c = push_32 (number e) (push_32 (code_of (error_code e)) (interrupt stub c))

pub enters :
    (e : Event) (common : List Instruction) (stub : ℕ) (c : Cpu)
    → IsExpected e
    → run_code (stub_of e common) (raise (error_code e) stub c) ≡ run_code common (entered stub e c)
unfolding run_code step raise interrupt push_32
enters (exception n none) common stub c h = rw h refl
enters (exception n (some code)) common stub c h = rw h refl
enters (line i) common stub c h = refl

saves :
    (c : Cpu) (stub : ℕ) (e : Event)
    → IsCpu c
    → (c' : Cpu) × (run_code save (entered stub e c) ≡ some c')
      × (c'.stack
          ≡ bytes_32 (u32 (c.esp + 2 ^ 32 - 56))
            ++ (words (frame (number e) (code_of (error_code e)) c) ++ c.stack))
unfolding run_code step push_all push_32 interrupt bytes_32
saves c stub e h = (
  _,
  refl,
  rw (below_lem 14 c.esp h.esp (omega arith), below_lem 5 c.esp h.esp (omega arith)) refl,
)

argument_of :
    (back v : ℕ) (s : Bytes) (c : Cpu)
    → c.stack ≡ bytes_32 v ++ s
    → v < 2 ^ 32
    → argument (push_32 back c) ≡ some v
unfolding push_32 bytes_32 take_32
argument_of back v s c top h = rw top (ap some (omega arith))

-- When the common stub calls the handler, for each vector whose stub fits its error code and for
-- each line, the handler's argument is a pointer to the frame of the interrupted processor: the
-- data segment in the low half of the first word, the registers of `pushad`, the number and the
-- error code, 0 where there is none, and EIP, CS and EFLAGS, with the interrupted stack behind it.
pub handler_frame :
    (c : Cpu) (stub back : ℕ) (e : Event)
    → IsCpu c
    → IsExpected e
    → (c' : Cpu) × (run_code (stub_of e save) (raise (error_code e) stub c) ≡ some c')
      × (argument (push_32 back c') ≡ some (u32 (c.esp + 2 ^ 32 - 56)))
      × (c'.stack
          ≡ bytes_32 (u32 (c.esp + 2 ^ 32 - 56))
            ++ (words (frame (number e) (code_of (error_code e)) c) ++ c.stack))
handler_frame c stub back e h fits =
    let (c', runs, stack) = saves c stub e h in
    (
      c',
      enters e save stub c fits ∙ runs,
      argument_of back (u32 (c.esp + 2 ^ 32 - 56)) _ c' stack (omega arith),
      stack,
    )
