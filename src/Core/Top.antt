-- ===== src/Core/Top.antt =====
-- coresystem.c, parts 6 and 9: the process table, and the command `top`.
pub mod Rows
mod Tests
use micro_kernel.Base.{ℕ, List, [], ◌∷◌, ◌==◌, if◌then◌else◌, Bytes, literal}
use micro_kernel.Console.{Run, pure, ◌>>=◌, ◌>>◌}
use micro_kernel.Core.Printf.{Arg, int, str}
use micro_kernel.Core.Printf.Call.{shell_printf}

pub data ProcessState : Type 0 where
  ready running sleeping zombie dead : ProcessState

-- The fields of `pcb_t` that the code with a body reads; `parent` is a pointer, and 0 is null.
pub record Pcb : Type 0 where
  pub pid : ℕ
  pub state : ProcessState
  pub parent : ℕ

-- What the pointers point to.
abbrev pub Store : Type 0
Store = ℕ → Pcb

unfoldable pub state_str : ProcessState → Bytes
state_str running = literal "running"
state_str ready = literal "ready  "
state_str sleeping = literal "sleeping"
state_str zombie = literal "zombie "
state_str dead = literal "unknown"

unfoldable pub parent_pid : Store → Pcb → ℕ
parent_pid s p = if p.parent == 0 then 0 else (s p.parent).pid

-- The loop over the table of pointers.
unfoldable pub print_rows : Store → List ℕ → Run ℕ
print_rows s [] = pure 0
print_rows s (ptr ∷ table) =
    let p = s ptr in
    let row = shell_printf (literal "%d\t%s\t%d\t%s\n") (
      int p.pid
      ∷ str (state_str p.state)
      ∷ int (parent_pid s p)
      ∷ str (literal "process_name")
      ∷ []) in
    let rest = print_rows s table in if ptr == 0 then rest else row >> rest

-- `process_table` has 64 pointers.
unfoldable pub cmd_top : Store → List ℕ → Run ℕ
cmd_top s process_table = do
  shell_printf (literal "pid\tstate\t\tparent\tname\n") []
  shell_printf (literal "---------------------------------------------\n") []
  print_rows s process_table
