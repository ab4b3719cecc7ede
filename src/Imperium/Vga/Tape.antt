-- ===== src/Imperium/Vga/Tape.antt =====
-- The display as a window on a page without end.
use micro_kernel.Base.{
  ltb→lt, ltb→le, ℕ, ◌+◌, ◌-◌, ◌*◌, ◌/◌, ◌%◌, ◌^◌, ◌≤◌, ◌<◌, ◌≡◌, refl, sym, ap, ◌∙◌, true, false,
  List, [], ◌∷◌, ◌++◌, append_assoc, leb, ◌==◌, ltb, if◌then◌else◌, Bytes, u8, u32, arith, get_or,
  length, Bool-cases, inl, inr,
}
use micro_kernel.Console.{Trace, Run, returned}
use micro_kernel.Imperium.Repeat.{rep_stos_lem, rep_movs_lem}
use micro_kernel.Imperium.Vga.{
  Vga, glyph, less, height, vga_scroll_screen, put, store_byte, check_scroll, handle_newline,
}

-- A page of rows of 80 cells that are numbered through, where the next character would go, its
-- colours, and the bytes that are stored elsewhere.
pub record Tape : Type 0 where
  pub strays : List (ℕ × ℕ)
  pub attribute : ℕ
  pub place : ℕ
  pub cell : ℕ → ℕ

abbrev pub word : ℕ → ℕ → ℕ
word attribute c = u8 attribute * 2 ^ 8 + u8 c

abbrev pub blank_tape : ℕ → List (ℕ × ℕ) → Tape
blank_tape attribute strays = record {
  attribute = attribute;
  place = 0;
  cell = λ i. word attribute b' ';
  strays = strays;
}

-- The two bytes of a character and their addresses, which the character and the attribute are in
-- turn.
abbrev pub stray : ℕ → ℕ → List (ℕ × ℕ)
stray attribute c =
    (0xB0000 + word attribute c, u8 c) ∷ (0xB0000 + word attribute c + 1, u8 attribute) ∷ []

-- No cell of the page changes. A character goes astray, and the place goes on by one; a backspace
-- goes back within its row, with a space that goes astray; a newline goes to the next row.
abbrev pub type_char : ℕ → Tape → Tape
type_char c t =
    if c == 0x08
    then (if t.place % 80 == 0
        then t
        else record t { place = t.place - 1; strays = t.strays ++ stray t.attribute b' ' })
    else if c == b'\n'
    then record t { place = (t.place / 80 + 1) * 80 }
    else record t { place = t.place + 1; strays = t.strays ++ stray t.attribute c }

abbrev pub type_text : Bytes → Tape → Tape
type_text [] t = t
type_text (c ∷ msg) t = type_text msg (type_char c t)

-- The number of the cell in the window's corner: the window ends with row 24 at least, and goes
-- down with the place.
abbrev pub corner : ℕ → ℕ
corner row = (row - 24) * 80

-- The screen shows the cells of the page from the window's corner on, and the page is blank behind
-- it.
pub record Shows (s : Vga) (attribute row : ℕ) (cell : ℕ → ℕ) : Type 0 where
  pub size : length s.cells ≡ 2000
  pub colour : s.text_attribute ≡ attribute
  pub in_row : s.cursor_y + (row - 24) ≡ row
  pub shown : (i : ℕ) → i < 2000 → get_or s.cells i 0 ≡ cell (corner row + i)
  pub behind : (j : ℕ) → corner row + 2000 ≤ j → cell j ≡ word attribute b' '

pub record IsWindow (s : Vga) (t : Tape) : Type 0 where
  pub shows : Shows s t.attribute (t.place / 80) t.cell
  pub column : s.cursor_x ≡ t.place % 80
  pub astray : s.outside ≡ t.strays
  pub dark : t.attribute < 0x7F

pub less_lem : (a b : ℕ) → a < 2 ^ 31 → b < 2 ^ 31 → less a b ≡ ltb a b
less_lem a b ha hb = ground arith

-- A step that returns, and what it returns.
abbrev pub Returns : Run Vga → (Vga → Type 0) → Type 0
Returns r P = (t : Trace) × (s : Vga) × (r ≡ returned t s) × P s

pub put_lem :
    (c : ℕ) (s : Vga)
    → s.cursor_x < 80
    → s.cursor_y < 25
    → s.text_attribute < 0x7F
    → put c s ≡ record s { outside = s.outside ++ stray s.text_attribute c }
unfolding put store_byte
put_lem c s hx hy dark =
    let ax = word s.text_attribute c in
    let cell = u32 (0xB8000 + u32 (u32 (80 * s.cursor_y + s.cursor_x) * 2)) in
    let first : cell / 2 ^ 16 * 2 ^ 16 + ax ≡ 0xB0000 + ax = omega arith in
    let second : u32 (0xB0000 + ax + 1) ≡ 0xB0000 + ax + 1 = omega arith in
    let low : u8 ax ≡ u8 c = omega arith in
    let high : ax / 2 ^ 8 ≡ u8 s.text_attribute = omega arith in
    let before : leb 0xB8000 (0xB0000 + ax) ≡ false = ground arith in
    let before' : leb 0xB8000 (0xB0000 + ax + 1) ≡ false = ground arith in
    rw (first, second, low, high, before, before')
      (ap (λ o. record s { outside = o }) (append_assoc s.outside _ _))

scroll_lem :
    (s : Vga)
    → length s.cells ≡ 2000
    → (cells : List ℕ) × (vga_scroll_screen s ≡ returned [] (record s { cells = cells }))
      × (length cells ≡ 2000)
      × ((i : ℕ)
          → i < 2000
          → get_or cells i 0 ≡ (if ltb i 1920 then get_or s.cells (i + 80) 0 else glyph s b' '))
unfolding vga_scroll_screen
scroll_lem s size =
    let (moved, runs, same, at) = rep_movs_lem 1920 80 0 s.cells (omega arith) (omega arith) in
    let (cells, runs', same', at') = rep_stos_lem 80 1920 (glyph s b' ') moved (omega arith) in
    (cells, rw (runs, runs') refl, same' ∙ (same ∙ size), λ i h. ground (arith, at i, at' i))

-- The window over the next row, on a screen that is where it was or one row further.
stays_shown :
    (s : Vga) (attribute row : ℕ) (cell : ℕ → ℕ)
    → Shows s attribute row cell
    → row < 24
    → Shows (record s { cursor_x = 0; cursor_y = u32 (s.cursor_y + 1) }) attribute (row + 1) cell
stays_shown s attribute row cell h below = record {
  size = h.size;
  colour = h.colour;
  in_row = omega (arith, h.in_row);
  shown = λ i b. h.shown i b ∙ ap cell (omega arith);
  behind = λ j b. h.behind j (omega arith);
}

moves_shown :
    (s : Vga) (attribute row : ℕ) (cell : ℕ → ℕ) (cells : List ℕ)
    → Shows s attribute row cell
    → 24 ≤ row
    → length cells ≡ 2000
    → ((i : ℕ)
        → i < 2000
        → get_or cells i 0 ≡ (if ltb i 1920 then get_or s.cells (i + 80) 0 else glyph s b' '))
    → Shows (record s { cells = cells; cursor_x = 0; cursor_y = 24 }) attribute (row + 1) cell
moves_shown s attribute row cell cells h above size at = record {
  size = size;
  colour = h.colour;
  in_row = omega arith;
  shown = λ i b. elim (Bool-cases (ltb i 1920)) [
    | inl e ↦
        at i b ∙ (rw e (h.shown (i + 80) (omega (arith, ltb→lt i 1920 e)) ∙ ap cell (omega arith)))
    | inr e ↦
        at i b
        ∙ (rw (e, h.colour)
            (sym (h.behind (corner (row + 1) + i) (omega (arith, ltb→le i 1920 e)))))
  ];
  behind = λ j b. h.behind j (omega arith);
}

pub next_row :
    (s : Vga) (attribute row : ℕ) (cell : ℕ → ℕ)
    → Shows s attribute row cell
    → (s' : Vga) × (handle_newline s ≡ returned [] s')
      × Shows s' attribute (row + 1) cell
      × (s'.cursor_x ≡ 0)
      × (s'.outside ≡ s.outside)
unfolding handle_newline check_scroll
next_row s attribute row cell h = elim (Bool-cases (ltb row 24)) [
  | inl e ↦
      let below : row < 24 = ltb→lt row 24 e in
      let is_less : less (u32 (s.cursor_y + 1)) height ≡ true = ground (arith, h.in_row) in
      (_, rw is_less refl, stays_shown s attribute row cell h below, refl, refl)
  | inr e ↦
      let above : 24 ≤ row = ltb→le row 24 e in
      let (cells, runs, size, at) =
        scroll_lem (record s { cursor_x = 0; cursor_y = u32 (s.cursor_y + 1) }) h.size in
      let is_less : less (u32 (s.cursor_y + 1)) height ≡ false = ground (arith, h.in_row) in
      (
        _,
        rw (is_less, runs) refl,
        moves_shown s attribute row cell cells h above size at,
        refl,
        refl,
      )
]
