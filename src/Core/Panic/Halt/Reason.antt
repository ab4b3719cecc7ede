-- ===== src/Core/Panic/Halt/Reason.antt =====
-- The reason of a panic stays on the screen.
use micro_kernel.Base.{
  ℕ, ◌+◌, ◌*◌, ◌^◌, ◌≤◌, ◌<◌, ◌≡◌, refl, ◌∙◌, true, false, [], ◌∷◌, ◌++◌, Option, some, arith,
  length, get_or, Bytes, IsText,
}
use micro_kernel.Pmm.Multiboot.{Memory}
use micro_kernel.Core.Panic.{Screen, print, panic_vga_print_str}
use micro_kernel.Core.Panic.Text.{cells, Shows, glyph, print_line, IsLine}
use micro_kernel.Core.Panic.Halt.{Registers, halts, kernel_panic}
use micro_kernel.Core.Panic.Halt.Steps.{text-Draws, number-Draws, state-Draws}
use micro_kernel.Core.Panic.Halt.Heading.{begin-Draws, end-Draws, heading_lem}
use micro_kernel.Core.Panic.Halt.Ends.{last_words, Shows-at}

message_printed :
    (message rest : Bytes) (s : Screen)
    → IsLine message
    → length message ≤ 70
    → length s ≡ cells
    → (s' : Screen) × (print (message ++ 0 ∷ rest) 10 3 0x0F s ≡ some s')
      × (length s' ≡ length s)
      × Shows message (3 * 80 + 10) 0x0F s s'
unfolding panic_vga_print_str
message_printed message rest s h short size =
    let line = print_line message rest 10 10 3 0x0F s h size (omega arith) (omega arith) in
    (line.1, rw line.2 refl, line.3, line.4)

-- A message of one line, of at most 70 characters, is on the screen when the machine halts, in its
-- row and in white: nothing that the panic draws afterwards (any file name, any 32-bit line
-- number, any registers and stack) covers it.
pub kernel_panic-reason :
    (m : Memory) (ebp : ℕ) (line_buf message rest file rest' : Bytes) (line : ℕ)
    (regs : Option Registers) (s : Screen)
    → IsLine message
    → length message ≤ 70
    → IsText file
    → line < 2 ^ 32
    → length line_buf ≡ 12
    → length s ≡ cells
    → (s' : Screen) × (kernel_panic m ebp line_buf
          (message ++ 0 ∷ rest)
          (file ++ 0 ∷ rest')
          line
          regs
          false
          s
        ≡ some (true, halts s'))
      × ((i : ℕ)
          → i < length message
          → get_or s' (3 * 80 + 10 + i) 0 ≡ glyph (get_or message i 0) 0x0F)
unfolding kernel_panic
kernel_panic-reason m ebp line_buf message rest file rest' line regs s hm short hf hl hb size =
    let (s₁, e₁, n₁, _) = begin-Draws s size in
    let (s₂, e₂, n₂, shows) = message_printed message rest s₁ hm short (n₁ ∙ size) in
    let (s₃, e₃, n₃, k₃) = end-Draws file rest' hf s₂ (n₂ ∙ n₁ ∙ size) in
    let e = heading_lem (message ++ 0 ∷ rest) (file ++ 0 ∷ rest') s s₁ s₂ s₃ e₁ e₂ e₃ in
    let size₃ = n₃ ∙ n₂ ∙ n₁ ∙ size in
    let (s₄, e₄, n₄, k₄) = number-Draws 320 line line_buf (omega arith) hl hb s₃ size₃ in
    let (s₅, e₅, n₅, k₅) = state-Draws 320 m ebp regs (omega arith) s₄ (n₄ ∙ size₃) in
    let (s₆, e₆, n₆, k₆) =
      text-Draws 320 last_words [] 25 23 0x4F (omega arith) (omega arith) s₅ (n₅ ∙ n₄ ∙ size₃) in
    (
      s₆,
      rw (e, e₄, e₅, e₆) refl,
      λ i b.
          let at = 3 * 80 + 10 + i in
          let inside : 3 * 80 + 10 + i < 320 = omega arith in
          k₆ at inside
          ∙ k₅ at inside
          ∙ k₄ at inside
          ∙ k₃ at inside
          ∙ Shows-at message (3 * 80 + 10) 0x0F s₁ s₂ i shows b,
    )
