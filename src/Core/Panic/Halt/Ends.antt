-- ===== src/Core/Panic/Halt/Ends.antt =====
-- How a panic ends.
use micro_kernel.Base.{
  ℕ, ◌+◌, ◌-◌, ◌*◌, ◌^◌, ◌<◌, ◌≡◌, refl, ap, ◌∙◌, true, false, [], ◌∷◌, ◌++◌, Option, some, arith,
  length, get_or, Bytes, IsText, codes,
}
use micro_kernel.Pmm.Multiboot.{Memory}
use micro_kernel.Core.Panic.{Screen, print, panic_vga_print_str}
use micro_kernel.Core.Panic.Text.{cells, Shows, glyph, print_line}
use micro_kernel.Core.Panic.Halt.{Registers, spins, halts, kernel_panic}
use micro_kernel.Core.Panic.Halt.Steps.{number-Draws, state-Draws}
use micro_kernel.Core.Panic.Halt.Heading.{heading-Draws}

abbrev pub last_words : Bytes
last_words = codes "system halted. please reboot."

pub last_line :
    (s : Screen)
    → length s ≡ cells
    → (s' : Screen) × (print (last_words ++ 0 ∷ []) 25 23 0x4F s ≡ some s')
      × (length s' ≡ length s)
      × Shows last_words (23 * 80 + 25) 0x4F s s'
unfolding panic_vga_print_str
last_line s size =
    let line =
      print_line last_words [] 25 25 23 0x4F s (omega arith) size (omega arith) (omega arith) in
    (line.1, rw line.2 refl, line.3, line.4)

pub Shows-at :
    (t : Bytes) (at attr : ℕ) (s s' : Screen) (i : ℕ)
    → Shows t at attr s s'
    → i < length t
    → get_or s' (at + i) 0 ≡ glyph (get_or t i 0) attr
Shows-at t at attr s s' i h hi =
    let back : at + i - at ≡ i = omega arith in
    ground (arith, h (at + i), ap (λ k. glyph (get_or t k 0) attr) back)

-- A first panic with any terminated message and file name, any 32-bit line number and any
-- registers (or none), whatever the memory behind the frame pointers and the array for the line
-- number hold, draws within the 2000 cells of the screen and always reaches its end: the flag is
-- set, and the machine halts with the last line's text in its cells. A panic during it spins and
-- leaves the screen as it is.
pub kernel_panic_halts :
    (m : Memory) (ebp : ℕ) (line_buf message rest file rest' : Bytes) (line : ℕ)
    (regs : Option Registers) (s : Screen)
    → IsText message
    → IsText file
    → line < 2 ^ 32
    → length line_buf ≡ 12
    → length s ≡ cells
    → (s' : Screen) × (kernel_panic m ebp line_buf
          (message ++ 0 ∷ rest)
          (file ++ 0 ∷ rest')
          line
          regs
          false
          s
        ≡ some (true, halts s'))
      × (length s' ≡ cells)
      × ((i : ℕ)
          → i < length last_words
          → get_or s' (23 * 80 + 25 + i) 0 ≡ glyph (get_or last_words i 0) 0x4F)
      × (kernel_panic m ebp line_buf (message ++ 0 ∷ rest) (file ++ 0 ∷ rest') line regs true s'
          ≡ some (true, spins s'))
unfolding kernel_panic
kernel_panic_halts m ebp line_buf message rest file rest' line regs s hm hf hl hb size =
    let (s₁, e₁, n₁, _) = heading-Draws message rest file rest' hm hf s size in
    let (s₂, e₂, n₂, _) = number-Draws 0 line line_buf (omega arith) hl hb s₁ (n₁ ∙ size) in
    let (s₃, e₃, n₃, _) = state-Draws 0 m ebp regs (omega arith) s₂ (n₂ ∙ n₁ ∙ size) in
    let (s₄, e₄, n₄, shows) = last_line s₃ (n₃ ∙ n₂ ∙ n₁ ∙ size) in
    (
      s₄,
      rw (e₁, e₂, e₃, e₄) refl,
      n₄ ∙ n₃ ∙ n₂ ∙ n₁ ∙ size,
      λ i hi. Shows-at last_words (23 * 80 + 25) 0x4F s₃ s₄ i shows hi,
      refl,
    )
