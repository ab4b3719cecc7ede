-- ===== src/Shell/Parse.antt =====
-- The first half of `shell_execute_command`: the input is cut into `argv`.
pub mod Laws
pub mod Length
use micro_kernel.Base.{ℕ, zero, suc, List, [], ◌∷◌, Option, none, some, ◌>>=◌, Bytes, literal}
use micro_kernel.Strings.Strtok.{Tokenizer, strtok}

-- At most 31 arguments, so that the closing NULL is inside `argv[32]`.
abbrev pub max_args : ℕ
max_args = 31

abbrev pub space : Bytes
space = literal " "

-- `while (token != NULL && argc < 31)`, by the arguments that `argv` still takes. The pointers of
-- `argv` are indices into the buffer.
unfoldable pub collect : ℕ → Option ℕ → Tokenizer → Option (List ℕ × Tokenizer)
collect zero token m = some ([], m)
collect (suc left) none m = some ([], m)
collect (suc left) (some p) m = do
  (token, m') ← strtok none space m
  (argv, m'') ← collect left token m'
  some (p ∷ argv, m'')

unfoldable pub tokenize : Tokenizer → Option (List ℕ × Tokenizer)
tokenize m = do (token, m') ← strtok (some 0) space m; collect max_args token m'
