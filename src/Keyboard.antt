-- ===== src/Keyboard.antt =====
-- kernel/keyboard.c: the scancode table, and the cursor that the handler moves.
pub mod Laws
mod Tests
use micro_kernel.Base.{
  ℕ, ◌+◌, ◌-◌, ◌∷◌, ◌++◌, ◌==◌, ltb, leb, if◌then◌else◌, get_elem?, length, Bytes, codes,
}
use micro_kernel.Base.Int.{pos}
use micro_kernel.Console.{Run, write_char_at, pure, ◌>>=◌, ◌>>◌, call, lift}

abbrev pub scancode_to_ascii : Bytes
scancode_to_ascii =
    codes "??1234567890-="
    ++ 8 ∷ codes "\tqwertyuiop[]\n"
    ++ codes "?asdfghjkl;'`?"
    ++ codes "\\zxcvbnm,./??? "

-- The column and the row, which are never negative. The row is an int, and its overflow after 2^31
-- line breaks is left out.
pub record Cursor : Type 0 where
  pub cursor_x : ℕ
  pub cursor_y : ℕ

abbrev pub initial : Cursor
initial = record { cursor_x = 0; cursor_y = 3 }

unfoldable pub next_line : Cursor → Cursor
next_line s = record { cursor_x = 0; cursor_y = s.cursor_y + 1 }

unfoldable pub erase : Cursor → Run Cursor
erase s =
    if ltb 0 s.cursor_x
    then (do
      let x = s.cursor_x - 1
      call (write_char_at b' ' (pos s.cursor_y) (pos x) 0x07)
      pure (record s { cursor_x = x }))
    else pure s

unfoldable pub put : ℕ → Cursor → Run Cursor
unfolding next_line
put c s = do
  call (write_char_at c (pos s.cursor_y) (pos s.cursor_x) 0x0F)
  let x = s.cursor_x + 1
  pure (if leb 80 x then next_line s else record s { cursor_x = x })

unfoldable pub key : ℕ → Cursor → Run Cursor
key c s = if c == b'\n' then pure (next_line s) else if c == 8 then erase s else put c s

-- `scancode` is the byte that `inb(0x60)` returns.
unfoldable pub keyboard_handler : ℕ → Cursor → Run Cursor
keyboard_handler scancode s =
    if ltb scancode (length scancode_to_ascii)
    then (do c ← lift (get_elem? scancode_to_ascii scancode); key c s)
    else pure s
