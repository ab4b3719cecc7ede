-- ===== src/Shell/Keypress/Session.antt =====
-- Sequences of keys, from the empty buffer on.
use micro_kernel.Base.{ℕ, refl, List, [], ◌∷◌, Bytes, arith}
use micro_kernel.Console.{Run, pure, ◌>>=◌}
use micro_kernel.Pmm.{Pmm}
use micro_kernel.Shell.Commands.{Machine}
use micro_kernel.Shell.Execute.Laws.{IsMachine}
use micro_kernel.Shell.Keypress.{Shell, initial, shell_handle_keypress}
use micro_kernel.Shell.Keypress.Editor.{edit}
use micro_kernel.Console.Relation.{RunRel, RunRel->>=}
use micro_kernel.Shell.Keypress.Refine.{Holds, keypress-Holds}

-- The keys one after the other, until the system stops.
unfoldable pub type_keys : Machine → List ℕ → Shell → Run Shell
type_keys m [] s = pure s
type_keys m (c ∷ cs) s = shell_handle_keypress m c s >>= type_keys m cs

unfoldable pub edit_keys : Pmm → List ℕ → Bytes → Run Bytes
edit_keys pmm [] line = pure line
edit_keys pmm (c ∷ cs) line = edit pmm c line >>= edit_keys pmm cs

-- From a state whose buffer holds the line, any sequence of keys makes the calls that the editor
-- makes for it, in the same order; both stop the system at the same key or neither does; if they
-- return, the buffer holds the editor's line. No access leaves the buffer, and every key is
-- handled to its end.
pub type_keys-edit_keys :
    (m : Machine) (cs : List ℕ) (s : Shell) (line : Bytes)
    → IsMachine m
    → Holds s line
    → RunRel Holds (type_keys m cs s) (edit_keys m.pmm cs line)
unfolding type_keys edit_keys
type_keys-edit_keys m [] s line ok h = (refl, h)
type_keys-edit_keys m (c ∷ cs) s line ok h =
    RunRel->>= Holds Holds (shell_handle_keypress m c s) (edit m.pmm c line) (type_keys m cs)
      (edit_keys m.pmm cs) (keypress-Holds m c s line ok h)
      (λ s' line' h'. type_keys-edit_keys m cs s' line' ok h')

-- The static variables hold the empty line.
pub initial-Holds : Holds initial []
initial-Holds = record {
  rest = initial.input.buffer;
  contents = refl;
  size = refl;
  position = refl;
  short = omega arith;
}
