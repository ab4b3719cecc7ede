-- ===== src/Core/Panic/Halt/Visible.antt =====
-- The registers on the screen on which a panic halts.
use micro_kernel.Base.{
  ℕ, ◌+◌, ◌*◌, ◌^◌, ◌≤◌, ◌<◌, ◌≡◌, refl, ◌∙◌, true, false, [], ◌∷◌, ◌++◌, some, arith, length,
  get_or, Bytes, IsText, codes, literal,
}
use micro_kernel.Pmm.Multiboot.{Memory}
use micro_kernel.Core.Panic.{Screen, print, panic_vga_print_str, print_frames, print_stack_trace}
use micro_kernel.Core.Panic.Text.{cells, glyph, print_line, IsLine}
use micro_kernel.Core.Panic.Halt.{Registers, halts, print_state, register_dump, kernel_panic}
use micro_kernel.Core.Panic.Halt.Dump.{
  Reports, Kept, Ends, Four, kept_both, kept-Four, then_ends, draws_on, dump_shown, Shows-Keeps,
}
use micro_kernel.Core.Panic.Halt.Steps.{text-Draws, frames-Draws, number-Draws}
use micro_kernel.Core.Panic.Halt.Heading.{heading-Draws}
use micro_kernel.Core.Panic.Halt.Ends.{last_words, Shows-at}

-- A text stands in the cells from a place on.
abbrev pub Stands : Bytes → ℕ → ℕ → Screen → Type 0
Stands t attr at s = (i : ℕ) → i < length t → get_or s (at + i) 0 ≡ glyph (get_or t i 0) attr

kept-Stands : (t : Bytes) (attr at k : ℕ) → at + length t ≤ k → Kept k (Stands t attr at)
kept-Stands t attr at k below s s' h keeps i b = keeps (at + i) (omega arith) ∙ h i b

text_shown :
    (t rest : Bytes) (x y attr : ℕ) (P : Screen → Type 0) (s : Screen)
    → IsLine t
    → y < 25
    → x + length t ≤ 80
    → Kept (y * 80 + x) P
    → length s ≡ cells
    → P s
    → Ends (print (t ++ 0 ∷ rest) x y attr) s (λ s'. (P s') × Stands t attr (y * 80 + x) s')
unfolding panic_vga_print_str
text_shown t rest x y attr P s h row fits kept size held =
    let (_, s₁, e₁, n₁, shows) = print_line t rest x x y attr s h size row fits in
    (
      s₁,
      rw e₁ refl,
      n₁ ∙ size,
      (
        kept s s₁ held (Shows-Keeps t (y * 80 + x) attr s s₁ shows),
        λ i b. Shows-at t (y * 80 + x) attr s s₁ i shows b,
      ),
    )

abbrev pub trace_heading : Bytes
trace_heading = codes "stack trace:"

-- The four numbers and the heading of the trace.
abbrev Both : Registers → Screen → Type 0
Both r s = (Four r s) × Stands trace_heading 0x0C (8 * 80 + 2) s

kept-Both : (r : Registers) (k : ℕ) → 720 ≤ k → Kept k (Both r)
kept-Both r k h =
    kept_both k (Four r) (Stands trace_heading 0x0C (8 * 80 + 2)) (kept-Four r k (omega arith))
      (kept-Stands trace_heading 0x0C (8 * 80 + 2) k (omega arith))

trace_shown :
    (r : Registers) (m : Memory) (ebp : ℕ) (s : Screen)
    → length s ≡ cells
    → Four r s
    → Ends (print_stack_trace m ebp 5) s (Both r)
unfolding print_stack_trace
trace_shown r m ebp s size held =
    then_ends (print (literal "stack trace:") 2 8 0x0C) (print_frames 5 0 m ebp) (Both r) (Both r) s
      (text_shown trace_heading [] 2 8 0x0C (Four r) s (omega arith) (omega arith) (omega arith)
        (kept-Four r 642 (omega arith)) size held)
      (λ s₁ size₁ h₁.
        draws_on 720 (print_frames 5 0 m ebp) (Both r) s₁
          (frames-Draws 720 5 0 m ebp (omega arith) (omega arith)) (kept-Both r 720 (omega arith))
          size₁ h₁)

state_shown :
    (r : Registers) (m : Memory) (ebp : ℕ) (s : Screen)
    → length s ≡ cells
    → Ends (print_state m ebp (some r)) s (Both r)
unfolding print_state
state_shown r m ebp s size =
    then_ends (register_dump r) (print_stack_trace m r.ebp 5) (Four r) (Both r) s
      (dump_shown r s size) (λ s₁ size₁ h₁. trace_shown r m r.ebp s₁ size₁ h₁)

-- When a first panic with any terminated message and file name, any 32-bit line number and any
-- registers halts, whatever memory holds: the numbers of EAX, EBX, ECX and EDX stand in the row 7,
-- but the heading of the stack trace stands in the columns 2 to 13 of the row 8, where the dump had
-- the name of ESI (in the columns 4 to 7) and the first five characters of its number (from the
-- column 9 on).
pub kernel_panic-registers :
    (m : Memory) (ebp : ℕ) (line_buf message rest file rest' : Bytes) (line : ℕ) (r : Registers)
    (s : Screen)
    → IsText message
    → IsText file
    → line < 2 ^ 32
    → length line_buf ≡ 12
    → length s ≡ cells
    → (s' : Screen) × (kernel_panic m ebp line_buf
          (message ++ 0 ∷ rest)
          (file ++ 0 ∷ rest')
          line
          (some r)
          false
          s
        ≡ some (true, halts s'))
      × Reports r.eax (7 * 80 + 9) s'
      × Reports r.ebx (7 * 80 + 29) s'
      × Reports r.ecx (7 * 80 + 49) s'
      × Reports r.edx (7 * 80 + 69) s'
      × Stands trace_heading 0x0C (8 * 80 + 2) s'
unfolding kernel_panic
kernel_panic-registers m ebp line_buf message rest file rest' line r s hm hf hl hb size =
    let (s₁, e₁, n₁, _) = heading-Draws message rest file rest' hm hf s size in
    let (s₂, e₂, n₂, _) = number-Draws 0 line line_buf (omega arith) hl hb s₁ (n₁ ∙ size) in
    let (s₃, e₃, n₃, h₃) = state_shown r m ebp s₂ (n₂ ∙ n₁ ∙ size) in
    let (s₄, e₄, n₄, ((((a, b), c), d), trace)) =
      draws_on 1840 (print (last_words ++ 0 ∷ []) 25 23 0x4F) (Both r) s₃
        (text-Draws 1840 last_words [] 25 23 0x4F (omega arith) (omega arith))
        (kept-Both r 1840 (omega arith)) n₃ h₃ in
    (s₄, rw (e₁, e₂, e₃, e₄) refl, a, b, c, d, trace)
