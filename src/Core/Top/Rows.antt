-- ===== src/Core/Top/Rows.antt =====
-- The rows that `cmd_top` shows.
use micro_kernel.Base.{
  ℕ, ◌^◌, ◌≤◌, ◌<◌, ◌≡◌, ◌≢◌, refl, ◌==◌, if◌then◌else◌, Bool-cases, inl, inr, List, [], ◌∷◌, ◌++◌,
  map, arith, length, Bytes, All, codes, literal,
}
use micro_kernel.Console.{Call, Trace, returned, write_vga_at, here}
use micro_kernel.Core.Printf.{int, str}
use micro_kernel.Core.Printf.Call.{shell_printf, shell_printf-shown}
use micro_kernel.Core.Printf.Number.{length-decimal}
use micro_kernel.Core.Printf.Render.{Piece, lit, dec, text, IsPiece, shown_all, length-shown_all}
use micro_kernel.Core.Top.{
  ProcessState, ready, running, sleeping, zombie, dead, Pcb, Store, state_str, parent_pid,
  print_rows, cmd_top,
}

-- A number of 32 bits that is not the least int, which `%d` cannot show.
abbrev pub IsPid : ℕ → Type 0
IsPid n = (n < 2 ^ 32) × (n ≢ 2 ^ 31)

-- The word for a state.
abbrev pub word : ProcessState → Bytes
word running = codes "running"
word ready = codes "ready  "
word sleeping = codes "sleeping"
word zombie = codes "zombie "
word dead = codes "unknown"

abbrev pub row_pieces : Store → Pcb → List Piece
row_pieces s p =
    dec p.pid
    ∷ lit (codes "\t")
    ∷ text (word p.state) []
    ∷ lit (codes "\t")
    ∷ dec (parent_pid s p)
    ∷ lit (codes "\t")
    ∷ text (codes "process_name") []
    ∷ lit (codes "\n")
    ∷ []

-- The processes of a table, in its order: its pointers but the null ones.
abbrev pub present : List ℕ → List ℕ
present [] = []
present (ptr ∷ table) = if ptr == 0 then present table else ptr ∷ present table

abbrev pub row : Store → ℕ → Call
row s ptr = write_vga_at (shown_all (row_pieces s (s ptr))) here here 0x07

abbrev pub header : Trace
header =
    write_vga_at (codes "pid\tstate\t\tparent\tname\n") here here 0x07
    ∷ write_vga_at (codes "---------------------------------------------\n") here here 0x07
    ∷ []

word_lem :
    (st : ProcessState)
    → IsPiece (text (word st) []) × (length (word st) ≤ 8) × (state_str st ≡ word st ++ 0 ∷ [])
unfolding state_str
word_lem ready = (omega arith, omega arith, refl)
word_lem running = (omega arith, omega arith, refl)
word_lem sleeping = (omega arith, omega arith, refl)
word_lem zombie = (omega arith, omega arith, refl)
word_lem dead = (omega arith, omega arith, refl)

row_lem :
    (s : Store) (p : Pcb)
    → ((q : ℕ) → IsPid (s q).pid)
    → IsPid p.pid
    → shell_printf (literal "%d\t%s\t%d\t%s\n") (
        int p.pid
        ∷ str (state_str p.state)
        ∷ int (parent_pid s p)
        ∷ str (literal "process_name")
        ∷ [])
      ≡ returned (write_vga_at (shown_all (row_pieces s p)) here here 0x07 ∷ []) tt
row_lem s p ids id =
    let (w, short, same) = word_lem p.state in
    let parent : IsPid (parent_pid s p) = unfold parent_pid in ground (arith, ids p.parent) in
    let pieces : All IsPiece (row_pieces s p) = (
      id,
      (omega arith, (w, (omega arith, (parent, (omega arith, (omega arith, (omega arith, tt))))))),
    ) in
    let room : length (shown_all (row_pieces s p)) ≤ 510 = omega (
      arith,
      length-shown_all (row_pieces s p),
      length-decimal p.pid id.0,
      length-decimal (parent_pid s p) parent.0,
      short,
    ) in
    rw same (shell_printf-shown (row_pieces s p) pieces room)

print_rows_lem :
    (s : Store) (table : List ℕ)
    → ((q : ℕ) → IsPid (s q).pid)
    → print_rows s table ≡ returned (map (row s) (present table)) 0
unfolding print_rows
print_rows_lem s [] ids = refl
print_rows_lem s (ptr ∷ table) ids = elim (Bool-cases (ptr == 0)) [
  | inl e ↦ rw e (print_rows_lem s table ids)
  | inr e ↦ rw (e, row_lem s (s ptr) ids (ids ptr), print_rows_lem s table ids) refl
]

-- Where the process numbers have 32 bits and none is 2^31, which `%d` cannot show, the command shows the two lines of its heading and then
-- one row for each process in the table, in the table's order and without the empty slots: the
-- process's number, the word for its state, its parent's number or 0, and the same name for all.
-- It returns 0.
pub cmd_top_lem :
    (s : Store) (table : List ℕ)
    → ((q : ℕ) → IsPid (s q).pid)
    → cmd_top s table ≡ returned (header ++ map (row s) (present table)) 0
unfolding cmd_top
cmd_top_lem s table ids =
    let titles =
      shell_printf-shown (lit (codes "pid\tstate\t\tparent\tname\n") ∷ []) (omega arith)
        (omega arith) in
    let rule =
      shell_printf-shown (lit (codes "---------------------------------------------\n") ∷ [])
        (omega arith) (omega arith) in
    rw (titles, rule, print_rows_lem s table ids) refl
