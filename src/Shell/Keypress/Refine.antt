-- ===== src/Shell/Keypress/Refine.antt =====
-- The command buffer holds the line of the editor.
use micro_kernel.Base.{
  ℕ, ◌+◌, ◌-◌, ◌≤◌, ◌<◌, ◌≡◌, inl, inr, refl, sym, ap, ◌∙◌, [], ◌∷◌, ◌++◌, append_assoc, append-nil,
  Bool, some, arith, ◌==◌, ltb, ltb→lt, false, true, Bool-cases, drop, drop_cons, take-append-drop,
  length-take, length-drop, length, length-append, store, store-middle, take, Bytes,
}
use micro_kernel.Console.{
  returned, pure, ◌>>=◌, ◌>>◌, call, here, write_char_at, write_vga_at, Trace,
}
use micro_kernel.Console.Laws.{after-nil}
use micro_kernel.Console.Relation.{RunRel}
use micro_kernel.Strings.Text.{text_of, text_of-IsText}
use micro_kernel.Strings.Strtok.{Tokenizer}
use micro_kernel.Strings.Strtok.Words.{words}
use micro_kernel.Shell.Parse.{max_args}
use micro_kernel.Shell.Commands.{Machine}
use micro_kernel.Shell.Interpreter.{interpret, conclude, interpret-Concludes}
use micro_kernel.Shell.Execute.Laws.{IsMachine, execute-interpret}
use micro_kernel.Shell.Keypress.{
  Shell, prompt, run_line, enter, erase, insert, shell_handle_keypress,
}
use micro_kernel.Shell.Keypress.Editor.{enter_line, erase_line, insert_line, edit}

-- The buffer of 256 bytes begins with the line, which the position ends.
pub record Holds (s : Shell) (line : Bytes) : Type 0 where
  pub rest : Bytes
  pub contents : s.input.buffer ≡ line ++ rest
  pub size : length line + length rest ≡ 256
  pub position : s.cmd_pos ≡ length line
  pub short : length line ≤ 255

insert_lem :
    (c old : ℕ) (s : Shell) (line rest : Bytes)
    → s.input.buffer ≡ line ++ old ∷ rest
    → s.cmd_pos ≡ length line
    → insert c s
      ≡ returned (write_char_at c here here 0x0F ∷ []) (record {
        input = record { buffer = line ++ c ∷ rest; last = s.input.last };
        cmd_pos = s.cmd_pos + 1;
      })
unfolding insert
insert_lem c old s line rest e p = ground (arith, store-middle line s.cmd_pos old c rest p)

insert-Holds :
    (c : ℕ) (s : Shell) (line : Bytes)
    → Holds s line
    → length line < 255
    → RunRel Holds (insert c s) (insert_line c line)
insert-Holds c s line h room =
    let (old, rest, e, n) = drop_cons h.rest 0 (omega arith) in
    rw (insert_lem c old s line rest (h.contents ∙ ap (λ l. line ++ l) e) h.position) (
      refl,
      record {
        rest = rest;
        contents = sym (append_assoc line (c ∷ []) rest);
        size = omega (arith, length-append line (c ∷ []));
        position = omega (arith, h.position, length-append line (c ∷ []));
        short = omega (arith, length-append line (c ∷ []));
      },
    )

-- Without its last byte the line is still the beginning of the buffer.
shorter-Holds :
    (s : Shell) (c : ℕ) (line : Bytes)
    → Holds s (c ∷ line)
    → Holds (record s { cmd_pos = s.cmd_pos - 1 }) (take (length line) (c ∷ line))
shorter-Holds s c line h = record {
  rest = drop (length line) (c ∷ line) ++ h.rest;
  contents =
      h.contents
      ∙ ap (λ l. l ++ h.rest) (sym (take-append-drop (length line) (c ∷ line)))
      ∙ append_assoc _ _ h.rest;
  size = omega (
    arith,
    h.size,
    length-take (length line) (c ∷ line),
    length-drop (length line) (c ∷ line),
    length-append (drop (length line) (c ∷ line)) h.rest,
  );
  position = omega (arith, h.position, length-take (length line) (c ∷ line));
  short = omega (arith, h.short, length-take (length line) (c ∷ line));
}

erase-Holds : (s : Shell) (line : Bytes) → Holds s line → RunRel Holds (erase s) (erase_line line)
unfolding erase
erase-Holds s [] h =
    let none_left : ltb 0 s.cmd_pos ≡ false = ground arith in rw none_left (refl, h)
erase-Holds s (c ∷ line) h =
    let some_left : ltb 0 s.cmd_pos ≡ true = ground arith in
    rw some_left (refl, shorter-Holds s c line h)

-- The first byte 0 of a buffer ends its text.
text_before : (line rest : Bytes) → (rest' : Bytes) × (line ++ 0 ∷ rest ≡ text_of line ++ 0 ∷ rest')
text_before [] rest = (rest, refl)
text_before (c ∷ line) rest = elim (Bool-cases (c == 0)) [
  | inl e ↦ (line ++ 0 ∷ rest, rw e (ground arith))
  | inr e ↦ let (rest', q) = text_before line rest in (rest', rw e (ap (λ l. c ∷ l) q))
]

-- What `run_line` does to the state: the buffer is cut, and the position stays.
run_line-interpret :
    (m : Machine) (s : Shell) (line : Bytes)
    → IsMachine m
    → Holds s line
    → (input : Tokenizer) × (run_line m s ≡ (
        interpret m.pmm (take max_args (words b' ' (text_of line))) input >>= λ t.
        pure (record s { input = t })))
      × (length input.buffer ≡ 256)
unfolding run_line
run_line-interpret m s line ok h =
    let (old, rest, e, n) = drop_cons h.rest 0 (omega arith) in
    let (rest', same) = text_before line rest in
    let (t, runs, len) =
      execute-interpret m (text_of line) rest' s.input.last ok (text_of-IsText line) in
    let stored : store s.input.buffer s.cmd_pos 0 ≡ some (text_of line ++ 0 ∷ rest') =
      ap (λ b. store b s.cmd_pos 0) (h.contents ∙ ap (λ l. line ++ l) e)
      ∙ store-middle line s.cmd_pos old 0 rest h.position
      ∙ ap some same in
    (
      t,
      rw stored (rw runs (after-nil _)),
      omega (arith, len, ap length same, length-append line (0 ∷ rest)),
    )

-- After a line the buffer holds the empty line.
cleared-Holds : (s : Shell) → length s.input.buffer ≡ 256 → Holds (record s { cmd_pos = 0 }) []
cleared-Holds s h = record {
  rest = s.input.buffer;
  contents = refl;
  size = omega arith;
  position = refl;
  short = omega arith;
}

-- Both runs with the command's calls in the middle.
around_command :
    (stops : Bool) (t : Trace) (c : ℕ) (s : Shell) (input : Tokenizer)
    → length input.buffer ≡ 256
    → RunRel Holds
        (call (write_char_at c here here 0x07)
          >> ((conclude stops t input >>= λ i. pure (record s { input = i })) >>= λ s'.
              call (write_vga_at prompt here here 0x0A) >> pure (record s' { cmd_pos = 0 })))
        (call (write_char_at c here here 0x07)
          >> (conclude stops t tt >> (call (write_vga_at prompt here here 0x0A) >> pure [])))
around_command true t c s input h = refl
around_command false t c s input h =
    (simp (append-nil), cleared-Holds (record s { input = input }) h)

enter-Holds :
    (m : Machine) (c : ℕ) (s : Shell) (line : Bytes)
    → IsMachine m
    → Holds s line
    → RunRel Holds (enter m c s) (enter_line m.pmm c line)
unfolding enter
enter-Holds m c s [] ok h =
    let none_left : ltb 0 s.cmd_pos ≡ false = ground arith in
    rw none_left (refl, cleared-Holds s (omega (arith, ap length h.contents)))
enter-Holds m c s (a ∷ line) ok h =
    let some_left : ltb 0 s.cmd_pos ≡ true = ground arith in
    let (input, runs, len) = run_line-interpret m s (a ∷ line) ok h in
    let (stops, t, concludes) =
      interpret-Concludes m.pmm (take max_args (words b' ' (text_of (a ∷ line)))) in
    rw (some_left, runs, concludes Tokenizer input)
      (rw (concludes (Unit {0}) tt) (around_command stops t c s input len))

-- The code and the editor test for room alike.
same_room : (s : Shell) (line : Bytes) → Holds s line → ltb s.cmd_pos 255 ≡ ltb (length line) 255
same_room s line h = ap (λ n. ltb n 255) h.position

-- A key keeps the buffer and the editor in step.
pub keypress-Holds :
    (m : Machine) (c : ℕ) (s : Shell) (line : Bytes)
    → IsMachine m
    → Holds s line
    → RunRel Holds (shell_handle_keypress m c s) (edit m.pmm c line)
unfolding shell_handle_keypress edit
keypress-Holds m c s line ok h = elim (Bool-cases (c == b'\n')) [
  | inl e ↦ rw e (enter-Holds m c s line ok h)
  | inr e ↦ elim (Bool-cases (c == 8)) [
    | inl q ↦ rw (e, q) (erase-Holds s line h)
    | inr q ↦ elim (Bool-cases (ltb (length line) 255)) [
      | inl r ↦ rw (e, q, same_room s line h, r) (insert-Holds c s line h (ltb→lt _ _ r))
      | inr r ↦ rw (e, q, same_room s line h, r) (refl, h)
    ]
  ]
]
