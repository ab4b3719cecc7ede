-- ===== src/Shell/Keypress.antt =====
-- `shell_handle_keypress` and `shell_main_loop`, over the command buffer and its position.
pub mod Editor
pub mod Refine
pub mod Session
use micro_kernel.Base.{
  ℕ, ◌+◌, ◌-◌, List, [], ◌∷◌, none, ◌==◌, ltb, if◌then◌else◌, store, replicate, Bytes, codes,
}
use micro_kernel.Console.{Run, write_vga_at, write_char_at, pure, ◌>>=◌, ◌>>◌, call, lift, here}
use micro_kernel.Strings.Strtok.{Tokenizer}
use micro_kernel.Shell.Commands.{Machine}
use micro_kernel.Shell.Execute.{shell_execute_command}

-- `cmd_buffer` is the buffer that `strtok` cuts.
pub record Shell : Type 0 where
  pub input : Tokenizer
  pub cmd_pos : ℕ

abbrev pub prompt : Bytes
prompt = codes "MK++ > "

abbrev pub max_cmd_len : ℕ
max_cmd_len = 256

abbrev pub backspace : ℕ
backspace = 8

-- The static variables before the first key.
abbrev pub initial : Shell
initial = record { input = record { buffer = replicate max_cmd_len 0; last = none }; cmd_pos = 0 }

unfoldable pub shell_main_loop : Run (Unit {0})
shell_main_loop = call (write_vga_at prompt here here 0x0A)

-- The terminator behind the line, and the command.
unfoldable pub run_line : Machine → Shell → Run Shell
run_line m s = do
  buffer ← lift (store s.input.buffer s.cmd_pos 0)
  input ← shell_execute_command m (record { buffer = buffer; last = s.input.last })
  pure (record s { input = input })

unfoldable pub enter : Machine → ℕ → Shell → Run Shell
enter m c s = do
  call (write_char_at c here here 0x07)
  s' ← (if ltb 0 s.cmd_pos then run_line m s else pure s)
  call (write_vga_at prompt here here 0x0A)
  pure (record s' { cmd_pos = 0 })

unfoldable pub erase : Shell → Run Shell
erase s =
    if ltb 0 s.cmd_pos
    then (do
      call (write_char_at backspace here here 0x07)
      pure (record s { cmd_pos = s.cmd_pos - 1 }))
    else pure s

unfoldable pub insert : ℕ → Shell → Run Shell
insert c s = do
  buffer ← lift (store s.input.buffer s.cmd_pos c)
  call (write_char_at c here here 0x0F)
  pure (record { input = record { buffer = buffer; last = s.input.last }; cmd_pos = s.cmd_pos + 1 })

unfoldable pub shell_handle_keypress : Machine → ℕ → Shell → Run Shell
shell_handle_keypress m c s =
    if c == b'\n'
    then enter m c s
    else if c == backspace
    then erase s
    else if ltb s.cmd_pos (max_cmd_len - 1)
    then insert c s
    else pure s
