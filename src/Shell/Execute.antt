-- ===== src/Shell/Execute.antt =====
-- `shell_execute_command`: the input is cut into words and the first names the command.
pub mod Laws
use micro_kernel.Base.{
  ℕ, List, [], ◌∷◌, ◌++◌, Bool, false, Option, none, some, ◌==◌, if◌then◌else◌, drop, Bytes, codes,
}
use micro_kernel.Base.Int.{ℤ, pos, negsuc}
use micro_kernel.Console.{Run, write_vga_at, write_char_at, pure, ◌>>=◌, ◌>>◌, call, lift, here}
use micro_kernel.Strings.Text.{read_text}
use micro_kernel.Strings.Strcmp.{strcmp}
use micro_kernel.Strings.Strtok.{Tokenizer}
use micro_kernel.Shell.Parse.{tokenize}
use micro_kernel.Shell.Commands.{Entry, Machine, commands, run_command}

abbrev pub is_zero : ℤ → Bool
is_zero (pos n) = n == 0
is_zero (negsuc n) = false

-- The loop over the table, up to the entry that `strcmp` finds equal.
unfoldable pub find_command : List Entry → Bytes → Option (Option Entry)
find_command [] word = some none
find_command (e ∷ es) word = elim (strcmp (e.name ++ 0 ∷ []) word) [
  | none ↦ none
  | some r ↦ if is_zero r then some (some e) else find_command es word
]

unfoldable pub run_found : Machine → Tokenizer → List ℕ → ℕ → Option Entry → Run Tokenizer
run_found m t argv p (some e) = do run_command e.func m t.buffer argv; pure t
run_found m t argv p none = do
  call (write_vga_at (codes "Command not found: ") here here 0x0C)
  text ← lift (read_text (drop p t.buffer))
  call (write_vga_at text here here 0x0C)
  call (write_char_at b'\n' here here 0x07)
  pure t

unfoldable pub dispatch : Machine → Tokenizer → List ℕ → Run Tokenizer
dispatch m t [] = pure t
dispatch m t (p ∷ argv) = do
  found ← lift (find_command commands (drop p t.buffer))
  run_found m t (p ∷ argv) p found

unfoldable pub shell_execute_command : Machine → Tokenizer → Run Tokenizer
shell_execute_command m input = do (argv, t) ← lift (tokenize input); dispatch m t argv
