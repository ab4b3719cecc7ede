-- ===== src/Core/Panic/Glyph.antt =====
-- The cell that `panic_vga_print_char` writes.
use micro_kernel.Base.{
  ℕ, ◌+◌, ◌*◌, ◌/◌, ◌%◌, ◌<◌, ◌≡◌, refl, subst, ◌==◌, ltb, leb, ◌||◌, if◌then◌else◌, true,
  Bool-cases, inl, inr, some, arith, set, store-eq-set, length,
}
use micro_kernel.Base.Bits.{passes, passes_at}
use micro_kernel.Core.Panic.{Screen, panic_vga_print_char}
use micro_kernel.Core.Panic.Text.{cells, glyph}

-- The character below the attribute, if the character is ASCII.
abbrev pub expected : ℕ → ℕ → ℕ
expected c attr = if ltb c 128 then c + 256 * attr else 0xFF00 + c

table : passes (λ n. glyph (n / 256) (n % 256) == expected (n / 256) (n % 256)) 65536 ≡ true
unfolding passes
table = refl

glyph-expected : (c attr : ℕ) → c < 256 → attr < 256 → glyph c attr ≡ expected c attr
glyph-expected c attr hc ha =
    let n = c * 256 + attr in
    let at_c : (c * 256 + attr) / 256 ≡ c = omega arith in
    let at_attr : (c * 256 + attr) % 256 ≡ attr = omega arith in
    subst (λ a. glyph c a ≡ expected c a) at_attr
      (subst (λ b. glyph b ((c * 256 + attr) % 256) ≡ expected b ((c * 256 + attr) % 256)) at_c
        (ground (
          arith,
          passes_at (λ n. glyph (n / 256) (n % 256) == expected (n / 256) (n % 256)) 65536
              (c * 256 + attr) (omega arith) table,
        )))

-- A character is stored in its cell of the screen and nowhere else, and not at all outside of 80
-- columns and 25 rows. An ASCII character has its attribute in the high byte; any other byte is
-- widened with its sign, and the high byte is 0xFF whatever the attribute.
pub print_char_lem :
    (c x y attr : ℕ) (s : Screen)
    → c < 256
    → attr < 256
    → length s ≡ cells
    → panic_vga_print_char c x y attr s
      ≡ some (if leb 80 x || leb 25 y then s else set s (y * 80 + x) (expected c attr))
unfolding panic_vga_print_char
print_char_lem c x y attr s hc ha size = elim (Bool-cases (leb 80 x || leb 25 y)) [
  | inl e ↦ rw e refl
  | inr e ↦
      rw (e, glyph-expected c attr hc ha)
        (store-eq-set s (y * 80 + x) (expected c attr) (ground arith))
]
