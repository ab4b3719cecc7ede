-- ===== src/Shell/Keypress/Editor.antt =====
-- What the keys mean: a line of at most 255 bytes that is edited at its end, and interpreted.
use micro_kernel.Base.{ℕ, [], ◌∷◌, ◌++◌, ◌==◌, ltb, if◌then◌else◌, length, take, Bytes, codes}
use micro_kernel.Console.{Run, write_vga_at, write_char_at, pure, ◌>>◌, call, here}
use micro_kernel.Strings.Text.{text_of}
use micro_kernel.Strings.Strtok.Words.{words}
use micro_kernel.Pmm.{Pmm}
use micro_kernel.Shell.Parse.{max_args}
use micro_kernel.Shell.Interpreter.{interpret}

-- An empty line is no command; a byte 0 ends the text of a line.
abbrev pub interpret_line : Pmm → Bytes → Run (Unit {0})
interpret_line pmm [] = pure tt
interpret_line pmm (c ∷ line) = interpret pmm (take max_args (words b' ' (text_of (c ∷ line)))) tt

abbrev pub enter_line : Pmm → ℕ → Bytes → Run Bytes
enter_line pmm c line = do
  call (write_char_at c here here 0x07)
  interpret_line pmm line
  call (write_vga_at (codes "MK++ > ") here here 0x0A)
  pure []

abbrev pub erase_line : Bytes → Run Bytes
erase_line [] = pure []
erase_line (c ∷ line) = do
  call (write_char_at 8 here here 0x07)
  pure (take (length line) (c ∷ line))

abbrev pub insert_line : ℕ → Bytes → Run Bytes
insert_line c line = do call (write_char_at c here here 0x0F); pure (line ++ c ∷ [])

unfoldable pub edit : Pmm → ℕ → Bytes → Run Bytes
edit pmm c line =
    if c == b'\n'
    then enter_line pmm c line
    else if c == 8
    then erase_line line
    else if ltb (length line) 255
    then insert_line c line
    else pure line
