-- ===== src/Shell/Execute/Laws.antt =====
-- The code on the buffer does what the interpreter does on the words.
use micro_kernel.Base.{
  ℕ, ◌/◌, ◌^◌, ◌≤◌, ◌<◌, ◌≡◌, refl, ap, ◌∙◌, List, [], ◌∷◌, ◌++◌, map, Option, none, some, arith,
  length, length-append, drop, take, append-nil, Bytes, IsText, All, codes,
}
use micro_kernel.Console.{returned, pure, ◌>>=◌, here, write_vga_at, write_char_at}
use micro_kernel.Strings.Text.{read_text, read_text-append, read_text_inv}
use micro_kernel.Strings.Strcmp.{strcmp}
use micro_kernel.Strings.Strcmp.Laws.{difference, strcmp-difference}
use micro_kernel.Strings.Utoa.Laws.{printed, utoa-printed, length-printed, printed-IsText}
use micro_kernel.Pmm.{Pmm}
use micro_kernel.Pmm.Alloc.{pmm_get_used_mem, pmm_get_total_mem}
use micro_kernel.Console.Laws.{after-nil}
use micro_kernel.Strings.Strtok.{Tokenizer}
use micro_kernel.Strings.Strtok.Words.{words}
use micro_kernel.Shell.Parse.{max_args}
use micro_kernel.Shell.Parse.Laws.{texts, tokenize-words}
use micro_kernel.Shell.Parse.Length.{length-tokenize}
use micro_kernel.Shell.Commands.{
  Command, help, echo, memstat, clear, panic_test, Entry, Machine, commands, help_lines, cmd_help,
  echo_args, cmd_echo, cmd_memstat, cmd_clear, cmd_panic_test, run_command,
}
use micro_kernel.Shell.Interpreter.{
  echo_trace, memstat_trace, meaning, same_text, find_entry, answer, interpret,
}
use micro_kernel.Shell.Execute.{is_zero, find_command, run_found, dispatch, shell_execute_command}

echo_args-trace :
    (buffer : Bytes) (argv : List ℕ) (ws : List Bytes)
    → texts buffer argv ≡ map some ws
    → echo_args buffer argv ≡ returned (echo_trace ws) 0
unfolding echo_args
echo_args-trace buffer [] [] h = refl
echo_args-trace buffer [] (w ∷ ws) h = cc
echo_args-trace buffer (p ∷ argv) [] h = cc
echo_args-trace buffer (p ∷ argv) (w ∷ ws) h =
    let first : read_text (drop p buffer) ≡ some w = cc in
    let others : texts buffer argv ≡ map some ws = cc in
    rw (first, echo_args-trace buffer argv ws others)

-- A 32-bit number has at most ten decimal digits.
decimal : (v : ℕ) → v < 2 ^ 32 → length (printed 10 v) ≤ 10
decimal v h = length-printed v 10 10 (omega arith) (omega arith) (omega arith)

cmd_memstat-trace :
    (m : Machine)
    → length m.scratch ≡ 12
    → pmm_get_used_mem m.pmm < 2 ^ 32
    → pmm_get_total_mem m.pmm < 2 ^ 32
    → cmd_memstat m ≡ returned (memstat_trace (pmm_get_used_mem m.pmm) (pmm_get_total_mem m.pmm)) 0
unfolding cmd_memstat
cmd_memstat-trace m hs hu ht =
    let used = pmm_get_used_mem m.pmm / 1024 in
    let total = pmm_get_total_mem m.pmm / 1024 in
    let short : length (printed 10 used) ≤ 10 = decimal used (omega arith) in
    let short' : length (printed 10 total) ≤ 10 = decimal total (omega arith) in
    let (rest, e, n, _) =
      utoa-printed used 10 m.scratch (omega arith) (omega arith) (omega arith) (omega arith) in
    let (rest', e', n', _) =
      utoa-printed total 10 (printed 10 used ++ 0 ∷ rest) (omega arith) (omega arith) (omega arith)
        (omega (arith, length-append (printed 10 used) (0 ∷ rest))) in
    rw (
      e,
      read_text-append (printed 10 used) rest (printed-IsText 10 used),
      e',
      read_text-append (printed 10 total) rest' (printed-IsText 10 total),
    )

-- `difference` is 0 for the same texts only.
same_text-difference :
    (s t : Bytes) → IsText s → IsText t → is_zero (difference s t) ≡ same_text s t
same_text-difference [] [] hs ht = refl
same_text-difference [] (b ∷ t) hs ht = ground arith
same_text-difference (a ∷ s) [] hs ht = ground arith
same_text-difference (a ∷ s) (b ∷ t) (ha, hs) (hb, ht) =
    ground (arith, same_text-difference s t hs ht)

find_command-find_entry :
    (es : List Entry) (word w : Bytes)
    → All (λ e. IsText e.name) es
    → read_text word ≡ some w
    → find_command es word ≡ some (find_entry es w)
unfolding find_command find_entry
find_command-find_entry [] word w hs h = refl
find_command-find_entry (e ∷ es) word w (he, hs) h =
    let (rest, same, text) = read_text_inv word w h in
    let found : strcmp (e.name ++ 0 ∷ []) word ≡ some (difference e.name w) =
      ap (strcmp (e.name ++ 0 ∷ [])) same ∙ strcmp-difference e.name w [] rest he text in
    ground
      (arith, found, same_text-difference e.name w he text, find_command-find_entry es word w hs h)

-- The words from the pointers.
run_command-meaning :
    (c : Command) (m : Machine) (buffer : Bytes) (p : ℕ) (argv : List ℕ) (ws : List Bytes)
    → length m.scratch ≡ 12
    → pmm_get_used_mem m.pmm < 2 ^ 32
    → pmm_get_total_mem m.pmm < 2 ^ 32
    → texts buffer argv ≡ map some ws
    → run_command c m buffer (p ∷ argv) ≡ meaning m.pmm c ws 0
unfolding run_command cmd_echo cmd_help help_lines cmd_clear cmd_panic_test
run_command-meaning help m buffer p argv ws hs hu ht h = refl
run_command-meaning echo m buffer p argv ws hs hu ht h = echo_args-trace buffer argv ws h
run_command-meaning memstat m buffer p argv ws hs hu ht h = cmd_memstat-trace m hs hu ht
run_command-meaning clear m buffer p argv ws hs hu ht h = refl
run_command-meaning panic_test m buffer p argv ws hs hu ht h = refl

-- What the machine has to be: room for the numbers, and counters of 32 bits.
pub record IsMachine (m : Machine) : Type 0 where
  pub scratch_size : length m.scratch ≡ 12
  pub used_fits : pmm_get_used_mem m.pmm < 2 ^ 32
  pub total_fits : pmm_get_total_mem m.pmm < 2 ^ 32

commands-IsText : All (λ e. IsText e.name) commands
commands-IsText = omega arith

meaning_then :
    {A : Type 0} (pmm : Pmm) (c : Command) (ws : List Bytes) (n : ℕ) (a : A)
    → (meaning pmm c ws n >>= λ _. pure a) ≡ meaning pmm c ws a
meaning_then pmm help ws n a = refl
meaning_then pmm echo ws n a = ap (λ l. returned l a) (append-nil (echo_trace ws))
meaning_then pmm memstat ws n a = refl
meaning_then pmm clear ws n a = refl
meaning_then pmm panic_test ws n a = refl

-- The command that was found runs on the arguments, or the word is reported.
run_found-answer :
    (m : Machine) (t : Tokenizer) (p : ℕ) (argv : List ℕ) (w : Bytes) (ws : List Bytes)
    (found : Option Entry)
    → IsMachine m
    → texts t.buffer (p ∷ argv) ≡ map some (w ∷ ws)
    → run_found m t (p ∷ argv) p found ≡ answer m.pmm w ws found t
unfolding run_found
run_found-answer m t p argv w ws none ok h =
    let first : read_text (drop p t.buffer) ≡ some w = cc in rw first
run_found-answer m t p argv w ws (some e) ok h =
    let others : texts t.buffer argv ≡ map some ws = cc in
    rw
      (run_command-meaning e.func m t.buffer p argv ws ok.scratch_size ok.used_fits ok.total_fits
        others)
      (meaning_then m.pmm e.func ws 0 t)

dispatch-interpret :
    (m : Machine) (t : Tokenizer) (argv : List ℕ) (ws : List Bytes)
    → IsMachine m
    → texts t.buffer argv ≡ map some ws
    → dispatch m t argv ≡ interpret m.pmm ws t
unfolding dispatch interpret
dispatch-interpret m t [] [] ok h = refl
dispatch-interpret m t [] (w ∷ ws) ok h = cc
dispatch-interpret m t (p ∷ argv) [] ok h = cc
dispatch-interpret m t (p ∷ argv) (w ∷ ws) ok h =
    let first : read_text (drop p t.buffer) ≡ some w = cc in
    rw (find_command-find_entry commands (drop p t.buffer) w commands-IsText first)
      (rw (run_found-answer m t p argv w ws (find_entry commands w) ok h) (after-nil _))

-- On a terminated command line `shell_execute_command` does nothing that C leaves undefined and
-- ends: its calls, and whether it returns or the system stops, are those that the interpreter gives
-- for the line's first 31 words.
pub execute-interpret :
    (m : Machine) (line rest : Bytes) (old : Option ℕ)
    → IsMachine m
    → IsText line
    → (t : Tokenizer) × (shell_execute_command m (record { buffer = line ++ 0 ∷ rest; last = old })
        ≡ interpret m.pmm (take max_args (words b' ' line)) t)
      × (length t.buffer ≡ length (line ++ 0 ∷ rest))
unfolding shell_execute_command
execute-interpret m line rest old ok h =
    let c = tokenize-words line rest old h in
    let t : Tokenizer = record { buffer = c.tail; last = c.last } in
    (
      t,
      rw c.returns (after-nil _ ∙ dispatch-interpret m t c.argv _ ok c.same_texts),
      length-tokenize _ c.argv t c.returns,
    )

-- A line that begins with a space names no command, whatever follows: the first word is empty, and
-- the empty word is reported as not found.
pub leading_space :
    (m : Machine) (line rest : Bytes) (old : Option ℕ)
    → IsMachine m
    → IsText line
    → (t : Tokenizer) × (shell_execute_command m
          (record { buffer = b' ' ∷ line ++ 0 ∷ rest; last = old })
        ≡ returned
            (write_vga_at (codes "Command not found: ") here here 0x0C
              ∷ write_vga_at [] here here 0x0C
              ∷ write_char_at b'\n' here here 0x07
              ∷ [])
            t)
leading_space m line rest old ok h =
    let (t, runs, _) = execute-interpret m (b' ' ∷ line) rest old ok (omega arith, h) in
    (t, runs ∙ unfold interpret find_entry in refl)
