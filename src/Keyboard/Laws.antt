-- ===== src/Keyboard/Laws.antt =====
-- Where the handler writes, and how the cursor moves.
use micro_kernel.Base.{
  ℕ, zero, suc, ◌+◌, ◌-◌, ◌*◌, ◌/◌, ◌%◌, ◌<◌, ◌≡◌, inl, inr, refl, ap, ◌∙◌, List, [], ◌∷◌, ◌++◌,
  arith, ◌==◌, ltb, ltb→lt, subst, if◌then◌else◌, Bool-cases, get_or, get_elem?-eq-get_or,
  replicate,
}
use micro_kernel.Base.Int.{pos}
use micro_kernel.Console.Laws.{after-nil}
use micro_kernel.Console.Relation.{RunRel, RunRel->>=}
use micro_kernel.Console.{Call, Run, write_char_at, returned, pure, ◌>>=◌}
use micro_kernel.Keyboard.{
  Cursor, initial, scancode_to_ascii, next_line, erase, put, key, keyboard_handler,
}

-- The scancodes one after the other.
unfoldable pub handle_all : List ℕ → Cursor → Run Cursor
handle_all [] s = pure s
handle_all (k ∷ ks) s = keyboard_handler k s >>= handle_all ks

-- A position counts the cells of 80 columns row by row.
abbrev pub position : Cursor → ℕ
position s = 80 * s.cursor_y + s.cursor_x

abbrev pub write_cell : ℕ → ℕ → ℕ → Call
write_cell c p attr = write_char_at c (pos (p / 80)) (pos (p % 80)) attr

-- What a character means for the position: a line break goes to the next multiple of 80, an erase
-- clears the cell before unless it begins a row, any other character fills a cell.
abbrev pub type_char : ℕ → ℕ → Run ℕ
type_char c p =
    if c == b'\n'
    then returned [] ((p / 80 + 1) * 80)
    else if c == 8
    then if p % 80 == 0 then returned [] p else returned (write_cell b' ' (p - 1) 0x07 ∷ []) (p - 1)
    else returned (write_cell c p 0x0F ∷ []) (p + 1)

-- Scancodes from 58 on have no character.
unfoldable pub type_scancodes : List ℕ → ℕ → Run ℕ
type_scancodes [] p = returned [] p
type_scancodes (k ∷ ks) p =
    (if ltb k 58 then type_char (get_or scancode_to_ascii k 0) p else returned [] p)
    >>= type_scancodes ks

-- The cursor stands in a column of the screen, at the position.
abbrev pub IsAt : Cursor → ℕ → Type 0
IsAt s p = (s.cursor_x < 80) × (position s ≡ p)

key-IsAt : (c : ℕ) (s : Cursor) → s.cursor_x < 80 → RunRel IsAt (key c s) (type_char c (position s))
unfolding key next_line erase put
key-IsAt c s h = ground arith

handler-IsAt :
    (k : ℕ) (s : Cursor) (p : ℕ)
    → IsAt s p
    → RunRel IsAt
        (keyboard_handler k s)
        (if ltb k 58 then type_char (get_or scancode_to_ascii k 0) p else returned [] p)
unfolding keyboard_handler
handler-IsAt k s p (h, e) = elim (Bool-cases (ltb k 58)) [
  | inl q ↦
      rw (q, get_elem?-eq-get_or scancode_to_ascii k 0 (ltb→lt k 58 q))
        (rw after-nil (subst (λ n. RunRel IsAt (key c s) (type_char c n)) e (key-IsAt c s h)))
  | inr q ↦ rw q (refl, (h, e))
]
  where
    c : ℕ
    c = get_or scancode_to_ascii k 0

-- From any cursor in a column of the screen, each sequence of scancodes is handled without an
-- access out of bounds, and its calls are those of a position in rows of 80 cells: a letter is
-- written at the position and moves it on by one cell, over the end of a row to the next; a line
-- break moves it to the next row, an erase clears the cell before it within the row, and a
-- scancode from 58 on, such as that of a released key, does nothing.
pub handle_all-type_scancodes :
    (ks : List ℕ) (s : Cursor) (p : ℕ)
    → IsAt s p
    → RunRel IsAt (handle_all ks s) (type_scancodes ks p)
unfolding handle_all type_scancodes
handle_all-type_scancodes [] s p h = (refl, h)
handle_all-type_scancodes (k ∷ ks) s p h =
    RunRel->>= IsAt IsAt (keyboard_handler k s) _ (handle_all ks) (type_scancodes ks)
      (handler-IsAt k s p h) (λ s' p' h'. handle_all-type_scancodes ks s' p' h')

abbrev at_start : ℕ → Cursor
at_start y = record { cursor_x = 0; cursor_y = y }

enter_many :
    (n y : ℕ) (ks : List ℕ)
    → handle_all (replicate n 28 ++ ks) (at_start y) ≡ handle_all ks (at_start (y + n))
unfolding handle_all keyboard_handler key next_line
enter_many zero y ks = ap (λ m. handle_all ks (at_start m)) (omega arith)
enter_many (suc n) y ks =
    after-nil _ ∙ enter_many n (y + 1) ks ∙ ap (λ m. handle_all ks (at_start m)) (omega arith)

-- The row has no bound: after any number `n` of Enter keys the next letter is written in the row
-- `3 + n`, also where the screen of 25 rows has none.
pub enter_rows :
    (n : ℕ)
    → (s : Cursor) × (handle_all (replicate n 28 ++ 30 ∷ []) initial
        ≡ returned (write_char_at b'a' (pos (3 + n)) (pos 0) 0x0F ∷ []) s)
unfolding handle_all keyboard_handler key put next_line
enter_rows n = (record { cursor_x = 1; cursor_y = 3 + n }, enter_many n 3 (30 ∷ []) ∙ refl)
