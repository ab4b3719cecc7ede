-- ===== src/Shell/Tests.antt =====
-- Runs of the shell, and the theorems at inputs that meet their hypotheses.
use micro_kernel.Base.{
  ◌≡◌, refl, [], ◌∷◌, ◌++◌, none, some, arith, length, take, replicate, codes, literal,
}
use micro_kernel.Console.{returned, write_vga_at, write_char_at, here}
use micro_kernel.Strings.Strcmp.{strcmp}
use micro_kernel.Strings.Text.{read_text}
use micro_kernel.Strings.Strtok.{Tokenizer, strtok, resume, scan, is_delim, finish}
use micro_kernel.Strings.Strtok.Words.{words}
use micro_kernel.Pmm.Alloc.{pmm_get_used_mem, pmm_get_total_mem}
use micro_kernel.Shell.Parse.{collect, tokenize, max_args}
use micro_kernel.Shell.Parse.Laws.{Collects, tokenize-words}
use micro_kernel.Shell.Commands.{Machine, cmd_echo, echo_args, run_command}
use micro_kernel.Shell.Interpreter.{interpret}
use micro_kernel.Shell.Execute.{find_command, run_found, dispatch, shell_execute_command}
use micro_kernel.Shell.Execute.Laws.{IsMachine, execute-interpret}
use micro_kernel.Shell.Keypress.{
  Shell, initial, shell_handle_keypress, enter, erase, insert, run_line,
}
use micro_kernel.Shell.Keypress.Refine.{Holds}
use micro_kernel.Console.Relation.{RunRel}
use micro_kernel.Shell.Keypress.Session.{type_keys, edit_keys, type_keys-edit_keys, initial-Holds}

abbrev machine : Machine
machine = record {
  pmm = record { memory_end = 0x800000; current_break = 0x107000; start_addr = 0x106000 };
  scratch = replicate 12 0;
}

machine-IsMachine : IsMachine machine
unfolding pmm_get_used_mem pmm_get_total_mem
machine-IsMachine = record {
  scratch_size = refl;
  used_fits = omega arith;
  total_fits = omega arith;
}

cuts :
    tokenize (record { buffer = literal "echo hi  x"; last = none })
    ≡ some (
      0 ∷ 5 ∷ 8 ∷ 9 ∷ [],
      record {
        buffer = codes "echo" ++ 0 ∷ codes "hi" ++ 0 ∷ 0 ∷ codes "x" ++ 0 ∷ [];
        last = some 10;
      },
    )
unfolding tokenize collect strtok resume scan is_delim finish
cuts = refl

-- One key wrong and erased, then a command with one argument.
types_echo :
    (s : Shell) × (type_keys machine (codes "echp" ++ 8 ∷ codes "o x\n") initial
      ≡ returned
          (write_char_at b'e' here here 15
            ∷ write_char_at b'c' here here 15
            ∷ write_char_at b'h' here here 15
            ∷ write_char_at b'p' here here 15
            ∷ write_char_at 8 here here 7
            ∷ write_char_at b'o' here here 15
            ∷ write_char_at b' ' here here 15
            ∷ write_char_at b'x' here here 15
            ∷ write_char_at b'\n' here here 7
            ∷ write_vga_at (codes "x") here here 15
            ∷ write_char_at b' ' here here 15
            ∷ write_char_at b'\n' here here 7
            ∷ write_vga_at (codes "MK++ > ") here here 10
            ∷ [])
          s)
unfolding type_keys shell_handle_keypress insert erase enter run_line shell_execute_command tokenize
    collect strtok resume scan is_delim finish dispatch find_command strcmp run_found run_command
    cmd_echo echo_args read_text
types_echo = (
  record {
    input = record { buffer = codes "echo" ++ 0 ∷ codes "x" ++ replicate 250 0; last = some 6 };
    cmd_pos = 0;
  },
  refl,
)

tokenize-words_example :
    Collects []
      (take max_args (words b' ' (codes "a b")))
      (tokenize (record { buffer = codes "a b" ++ 0 ∷ []; last = none }))
tokenize-words_example = tokenize-words (codes "a b") [] none (omega arith)

execute-interpret_example :
    (t : Tokenizer) × (shell_execute_command machine
        (record { buffer = codes "echo hi" ++ 0 ∷ []; last = none })
      ≡ interpret machine.pmm (take max_args (words b' ' (codes "echo hi"))) t)
    × (length t.buffer ≡ length (codes "echo hi" ++ 0 ∷ []))
execute-interpret_example =
    execute-interpret machine (codes "echo hi") [] none machine-IsMachine (omega arith)

type_keys-edit_keys_example :
    RunRel Holds
      (type_keys machine (codes "echo hi\n") initial)
      (edit_keys machine.pmm (codes "echo hi\n") [])
type_keys-edit_keys_example =
    type_keys-edit_keys machine (codes "echo hi\n") initial [] machine-IsMachine initial-Holds
