-- ===== src/Imperium/Vga/Typed.antt =====
-- What a text does to the display.
use micro_kernel.Base.{
  ℕ, ◌<◌, ◌≡◌, refl, ◌∙◌, ◌%◌, [], ◌∷◌, ◌==◌, Bytes, arith, length, Bool-cases, inl, inr,
}
use micro_kernel.Console.{Trace, returned}
use micro_kernel.Imperium.Repeat.{rep_stos_lem}
use micro_kernel.Imperium.Vga.{
  Vga, glyph, vga_clear_screen, handle_newline, handle_backspace, print, vga_print_char,
}
use micro_kernel.Imperium.Vga.Tape.{Tape, blank_tape, type_char, type_text, IsWindow}
use micro_kernel.Imperium.Vga.Cursor.{cursor_writes, hw_cursor_lem, window_in_screen, shows_cursor}
use micro_kernel.Imperium.Vga.Char.{newline_typed, backspace_typed, print_typed}

-- A character of any value, from a window on a page: the display is the window on the page as the
-- character leaves it, the cursor is on the screen, and the four writes that set the blinking
-- cursor are the only ones to a port. Their low byte is always 0x0F, since the number of the
-- register is written to the position's own low byte.
pub print_char_typed :
    (c : ℕ) (s : Vga) (t : Tape)
    → IsWindow s t
    → (s' : Vga) × (vga_print_char c s ≡ returned (cursor_writes s') s')
      × IsWindow s' (type_char c t)
      × (s'.cursor_x < 80)
      × (s'.cursor_y < 25)
unfolding vga_print_char
print_char_typed c s t h = elim (Bool-cases (c == 0x08)) [
  | inl e ↦
      let (s', runs, window) = backspace_typed s t h in
      (
        s',
        rw e (shows_cursor (handle_backspace s) s' _ runs window),
        rw e window,
        (window_in_screen s' _ window).0,
        (window_in_screen s' _ window).1,
      )
  | inr e ↦ elim (Bool-cases (c == b'\n')) [
    | inl e' ↦
        let (s', runs, window) = newline_typed s t h in
        (
          s',
          rw (e, e') (shows_cursor (handle_newline s) s' _ runs window),
          rw (e, e') window,
          (window_in_screen s' _ window).0,
          (window_in_screen s' _ window).1,
        )
    | inr e' ↦
        let (s', runs, window) = print_typed c s t h in
        (
          s',
          rw (e, e') (shows_cursor (print c s) s' _ runs window),
          rw (e, e') window,
          (window_in_screen s' _ window).0,
          (window_in_screen s' _ window).1,
        )
  ]
]

type_char-cell : (c : ℕ) (t : Tape) → (type_char c t).cell ≡ t.cell
type_char-cell c t = elim (Bool-cases (c == 0x08)) [
  | inl e ↦ elim (Bool-cases (t.place % 80 == 0)) [
    | inl e' ↦ rw (e, e') refl
    | inr e' ↦ rw (e, e') refl
  ]
  | inr e ↦ elim (Bool-cases (c == b'\n')) [ inl e' ↦ rw (e, e') refl | inr e' ↦ rw (e, e') refl ]
]

pub type_text-cell : (msg : Bytes) (t : Tape) → (type_text msg t).cell ≡ t.cell
type_text-cell [] t = refl
type_text-cell (c ∷ msg) t = type_text-cell msg (type_char c t) ∙ type_char-cell c t

-- Whatever 2000 words the video memory holds and wherever the cursor is, clearing returns with a
-- window at the beginning of the blank page.
pub clear_screen_blank :
    (s : Vga)
    → length s.cells ≡ 2000
    → s.text_attribute < 0x7F
    → (writes : Trace) × (s' : Vga) × (vga_clear_screen s ≡ returned writes s')
      × IsWindow s' (blank_tape s.text_attribute s.outside)
unfolding vga_clear_screen
clear_screen_blank s size dark =
    let (cells, runs, same, at) = rep_stos_lem 2000 0 (glyph s b' ') s.cells (omega arith) in
    let s' : Vga = record s { cells = cells; cursor_x = 0; cursor_y = 0 } in
    (
      cursor_writes s',
      s',
      rw (runs, hw_cursor_lem s' (omega arith) (omega arith)) refl,
      record {
        shows = record {
          size = same ∙ size;
          colour = refl;
          in_row = omega arith;
          shown = λ i b. ground (arith, at i);
          behind = λ j b. refl;
        };
        column = omega arith;
        astray = refl;
        dark = dark;
      },
    )
