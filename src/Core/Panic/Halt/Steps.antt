-- ===== src/Core/Panic/Halt/Steps.antt =====
-- The panic ends, whatever it is given.
use micro_kernel.Base.{
  ℕ, zero, suc, ◌+◌, ◌*◌, ◌^◌, ◌≤◌, ◌<◌, ◌≡◌, refl, ◌∙◌, ◌==◌, ◌||◌, Bool-cases, inl, inr, List, [],
  ◌∷◌, ◌++◌, Option, none, some, ◌>>=◌, arith, length, u8, Bytes, IsText, codes, literal, All,
}
use micro_kernel.Pmm.Multiboot.{Memory, read_u32}
use micro_kernel.Core.Panic.{
  Screen, panic_vga_print_char, print, panic_vga_print_hex, print_frame, print_frames,
  print_stack_trace,
}
use micro_kernel.Core.Panic.Text.{Fits, cells, print_char-Fits, print-Fits, IsLine}
use micro_kernel.Core.Panic.Hex.{hex_digits-report, report, report-IsLine}
use micro_kernel.Strings.Utoa.Laws.{printed, length-printed, printed-IsText, utoa-printed}
use micro_kernel.Core.Panic.Line.{line_text-utoa}
use micro_kernel.Core.Panic.Halt.{
  Registers, clear_row, clear_rows, print_register, register_dump, print_state, print_line_number,
}

-- A step that draws on every screen of the full size, behind the first `k` cells.
abbrev pub Draws : ℕ → (Screen → Option Screen) → Type 0
Draws k f = (s : Screen) → length s ≡ cells → Fits k (f s) s

pub then-Draws :
    (k : ℕ) (f g : Screen → Option Screen) → Draws k f → Draws k g → Draws k (λ s. f s >>= g)
then-Draws k f g df dg s h =
    let (s₁, e, size, same) = df s h in
    let (s₂, e', size', same') = dg s₁ (size ∙ h) in
    rw e (s₂, e', size' ∙ size, λ i b. same' i b ∙ same i b)

pub text-Draws :
    (k : ℕ) (t rest : Bytes) (x y attr : ℕ)
    → k ≤ y * 80
    → IsText t
    → Draws k (print (t ++ 0 ∷ rest) x y attr)
text-Draws k t rest x y attr below h s size = print-Fits k t rest x y attr s h below size

IsLine-IsText : (t : Bytes) → IsLine t → IsText t
IsLine-IsText [] h = tt
IsLine-IsText (c ∷ t) ((a, b), h) = (a, IsLine-IsText t h)

hex-Draws : (k n x y attr : ℕ) → k ≤ y * 80 → Draws k (panic_vga_print_hex n x y attr)
unfolding panic_vga_print_hex
hex-Draws k n x y attr below s size =
    rw (hex_digits-report n) (
      print-Fits k (report n) [] x y attr s (IsLine-IsText (report n) (report-IsLine n)) below size)

frame-Draws : (k i a : ℕ) → k ≤ 720 → i < 5 → Draws k (print_frame i a)
unfolding print_frame
frame-Draws k i a below h =
    then-Draws k (print (codes "[" ++ u8 (b'0' + i) ∷ codes "]" ++ 0 ∷ []) 4 (9 + i) 0x0E)
      (panic_vga_print_hex a 8 (9 + i) 0x0F)
      (text-Draws k (b'[' ∷ u8 (b'0' + i) ∷ b']' ∷ []) [] 4 (9 + i) 0x0E (omega arith)
        (omega arith, (omega arith, (omega arith, tt))))
      (hex-Draws k a 8 (9 + i) 0x0F (omega arith))

pub frames-Draws :
    (k left i : ℕ) (m : Memory) (fp : ℕ)
    → k ≤ 720
    → i + left ≤ 5
    → Draws k (print_frames left i m fp)
unfolding print_frames
frames-Draws k zero i m fp below h s size = (s, refl, refl, λ j b. refl)
frames-Draws k (suc left) i m fp below h s size =
    elim (Bool-cases (fp == 0 || read_u32 m (fp + 4) == 0)) [
      | inl e ↦ rw e (s, refl, refl, λ j b. refl)
      | inr e ↦ rw e (
          then-Draws k (print_frame i (read_u32 m (fp + 4)))
            (print_frames left (i + 1) m (read_u32 m fp))
            (frame-Draws k i (read_u32 m (fp + 4)) below (omega arith))
            (frames-Draws k left (i + 1) m (read_u32 m fp) below (omega arith)) s size)
    ]

pub trace-Draws : (k : ℕ) (m : Memory) (ebp : ℕ) → k ≤ 640 → Draws k (print_stack_trace m ebp 5)
unfolding print_stack_trace
trace-Draws k m ebp below =
    then-Draws k (print (literal "stack trace:") 2 8 0x0C) (print_frames 5 0 m ebp)
      (text-Draws k (codes "stack trace:") [] 2 8 0x0C (omega arith) (omega arith))
      (frames-Draws k 5 0 m ebp (omega arith) (omega arith))

row-Draws : (left x y attr : ℕ) → Draws 0 (clear_row left x y attr)
unfolding clear_row
row-Draws zero x y attr = λ s size. (s, refl, refl, λ j b. refl)
row-Draws (suc left) x y attr =
    then-Draws 0 (panic_vga_print_char b' ' x y attr) (clear_row left (x + 1) y attr)
      (λ s size. print_char-Fits 0 b' ' x y attr s (omega arith) size)
      (row-Draws left (x + 1) y attr)

pub rows-Draws : (left y attr : ℕ) → Draws 0 (clear_rows left y attr)
unfolding clear_rows
rows-Draws zero y attr = λ s size. (s, refl, refl, λ j b. refl)
rows-Draws (suc left) y attr =
    then-Draws 0 (clear_row 80 0 y attr) (clear_rows left (y + 1) attr) (row-Draws 80 0 y attr)
      (rows-Draws left (y + 1) attr)

pub register-Draws :
    (k : ℕ) (name rest : Bytes) (x n x_n y attr : ℕ)
    → k ≤ y * 80
    → IsText name
    → Draws k (print_register (name ++ 0 ∷ rest) x n x_n y attr)
unfolding print_register
register-Draws k name rest x n x_n y attr below h =
    then-Draws k (print (name ++ 0 ∷ rest) x y attr) (panic_vga_print_hex n x_n y 0x0F)
      (text-Draws k name rest x y attr below h) (hex-Draws k n x_n y 0x0F below)

-- A chain of steps, as the code composes them.
abbrev pub chain : List (Screen → Option Screen) → Screen → Option Screen
chain [] s = some s
chain (f ∷ []) s = f s
chain (f ∷ (g ∷ fs)) s = f s >>= chain (g ∷ fs)

pub chain-Draws :
    (k : ℕ) (fs : List (Screen → Option Screen)) → All (Draws k) fs → Draws k (chain fs)
chain-Draws k [] h = λ s size. (s, refl, refl, λ j b. refl)
chain-Draws k (f ∷ []) (df, h) = df
chain-Draws k (f ∷ (g ∷ fs)) (df, h) = then-Draws k f (chain (g ∷ fs)) df (chain-Draws k (g ∷ fs) h)

dump-Draws : (k : ℕ) (r : Registers) → k ≤ 480 → Draws k (register_dump r)
unfolding register_dump
dump-Draws k r below =
    chain-Draws k
      (print (literal "register dump:") 2 6 0x0C
        ∷ print_register (literal "eax:") 4 r.eax 9 7 0x0E
        ∷ print_register (literal "ebx:") 24 r.ebx 29 7 0x0E
        ∷ print_register (literal "ecx:") 44 r.ecx 49 7 0x0E
        ∷ print_register (literal "edx:") 64 r.edx 69 7 0x0E
        ∷ print_register (literal "esi:") 4 r.esi 9 8 0x0E
        ∷ print_register (literal "edi:") 24 r.edi 29 8 0x0E
        ∷ print_register (literal "ebp:") 44 r.ebp 49 8 0x0E
        ∷ print_register (literal "esp:") 64 r.esp 69 8 0x0E
        ∷ print_register (literal "eip:") 4 r.eip 9 10 0x0C
        ∷ print_register (literal "cs:") 24 r.cs 29 10 0x0C
        ∷ print_register (literal "eflags:") 44 r.eflags 52 10 0x0C
        ∷ [])
      (
        text-Draws k (codes "register dump:") [] 2 6 0x0C (omega arith) (omega arith),
        (
          register-Draws k (codes "eax:") [] 4 r.eax 9 7 0x0E (omega arith) (omega arith),
          (
            register-Draws k (codes "ebx:") [] 24 r.ebx 29 7 0x0E (omega arith) (omega arith),
            (
              register-Draws k (codes "ecx:") [] 44 r.ecx 49 7 0x0E (omega arith) (omega arith),
              (
                register-Draws k (codes "edx:") [] 64 r.edx 69 7 0x0E (omega arith) (omega arith),
                (
                  register-Draws k (codes "esi:") [] 4 r.esi 9 8 0x0E (omega arith) (omega arith),
                  (
                    register-Draws k (codes "edi:") [] 24 r.edi 29 8 0x0E (omega arith)
                        (omega arith),
                    (
                      register-Draws k (codes "ebp:") [] 44 r.ebp 49 8 0x0E (omega arith)
                          (omega arith),
                      (
                        register-Draws k (codes "esp:") [] 64 r.esp 69 8 0x0E (omega arith)
                            (omega arith),
                        (
                          register-Draws k (codes "eip:") [] 4 r.eip 9 10 0x0C (omega arith)
                              (omega arith),
                          (
                            register-Draws k (codes "cs:") [] 24 r.cs 29 10 0x0C (omega arith)
                                (omega arith),
                            (
                              register-Draws k (codes "eflags:") [] 44 r.eflags 52 10 0x0C
                                  (omega arith) (omega arith),
                              tt,
                            ),
                          ),
                        ),
                      ),
                    ),
                  ),
                ),
              ),
            ),
          ),
        ),
      )

pub state-Draws :
    (k : ℕ) (m : Memory) (ebp : ℕ) (regs : Option Registers)
    → k ≤ 480
    → Draws k (print_state m ebp regs)
unfolding print_state
state-Draws k m ebp none below = trace-Draws k m ebp (omega arith)
state-Draws k m ebp (some r) below =
    then-Draws k (register_dump r) (print_stack_trace m r.ebp 5) (dump-Draws k r below)
      (trace-Draws k m r.ebp (omega arith))

pub number-Draws :
    (k line : ℕ) (buf : Bytes)
    → k ≤ 320
    → line < 2 ^ 32
    → length buf ≡ 12
    → Draws k (print_line_number line buf)
unfolding print_line_number
number-Draws k line buf below h size =
    let short = length-printed line 10 10 (omega arith) (omega arith) (omega arith) in
    let (rest, text, bound, value) =
      utoa-printed line 10 buf (omega arith) (omega arith) h (omega arith) in
    rw (line_text-utoa line buf, text)
      (then-Draws k (print (literal ":") 40 4 0x0F) (print (printed 10 line ++ 0 ∷ rest) 42 4 0x0F)
        (text-Draws k (codes ":") [] 40 4 0x0F (omega arith) (omega arith))
        (text-Draws k (printed 10 line) rest 42 4 0x0F (omega arith) (printed-IsText 10 line)))
