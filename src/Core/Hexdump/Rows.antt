-- ===== src/Core/Hexdump/Rows.antt =====
-- What a dump shows: rows of 16 bytes.
use micro_kernel.Base.{
  ℕ, zero, suc, ◌+◌, ◌-◌, ◌*◌, ◌/◌, ◌%◌, ◌≤◌, ◌<◌, ◌≡◌, refl, sym, ap, ◌∙◌, ◌==◌, if◌then◌else◌,
  List, [], ◌∷◌, ◌++◌, append_assoc, append-nil, arith, length, replicate, u32, Bytes, IsText, All,
  codes, literal,
}
use micro_kernel.Console.{
  Trace, write_vga_at, write_char_at, clear_screen, outb, panic, Run, here, returned, ◌>>=◌,
}
use micro_kernel.Pmm.Multiboot.{Memory, read_u8}
use micro_kernel.Core.Printf.{int}
use micro_kernel.Core.Printf.Call.{shell_printf, shell_printf-shown}
use micro_kernel.Core.Printf.HexText.{hex_text, length-hex_text}
use micro_kernel.Core.Printf.Render.{
  Piece, lit, hexa_02, hexa_08, text, IsPiece, shown_all, length-shown_all, spelled_all, passed_all,
}
use micro_kernel.Core.Hexdump.{ascii_char, end_line}

-- `n` bytes from the index `i` on: in hexadecimal, and as characters.
unfoldable pub hexes : Memory → ℕ → ℕ → ℕ → Bytes
hexes m addr zero i = []
hexes m addr (suc n) i = hex_text 8 (read_u8 m (addr + i)) ++ (b' ' ∷ hexes m addr n (i + 1))

unfoldable pub chars : Memory → ℕ → ℕ → ℕ → Bytes
chars m addr zero i = []
chars m addr (suc n) i = ascii_char (read_u8 m (addr + i)) ∷ chars m addr n (i + 1)

-- The address at the left, and the characters at the right.
unfoldable pub heading : ℕ → ℕ → Bytes
heading addr i = codes "0x" ++ (hex_text 8 (u32 (addr + i)) ++ codes ": ")

unfoldable pub ending : Bytes → Bytes
ending t = codes "  |" ++ (t ++ codes "|\n")

-- Three spaces for each byte that is missing.
unfoldable pub padding : ℕ → Bytes
padding zero = []
padding (suc n) = b' ' ∷ b' ' ∷ b' ' ∷ padding n

-- A row of `n` bytes, as wide as one of 16.
unfoldable pub row : Memory → ℕ → ℕ → ℕ → Bytes
row m addr n i =
    heading addr i
    ++ (hexes m addr n i
        ++ (padding (16 - n) ++ ending (chars m addr n i ++ replicate (16 - n) b' ')))

unfoldable pub full_rows : Memory → ℕ → ℕ → ℕ → Bytes
full_rows m addr zero i = []
full_rows m addr (suc q) i = row m addr 16 i ++ full_rows m addr q (i + 16)

unfoldable pub last_row : Memory → ℕ → ℕ → ℕ → Bytes
last_row m addr n i = if n == 0 then [] else row m addr n i

-- The rows of a range.
unfoldable pub dump_text : Memory → ℕ → ℕ → Bytes
dump_text m addr len = full_rows m addr (len / 16) 0 ++ last_row m addr (len % 16) (16 * (len / 16))

-- The text of the calls that write where the cursor is.
abbrev pub written : Trace → Bytes
written [] = []
written (write_vga_at s row col attr ∷ t) = s ++ written t
written (write_char_at c row col attr ∷ t) = written t
written (clear_screen ∷ t) = written t
written (outb port v ∷ t) = written t
written (panic message ∷ t) = written t

pub written-append : (t u : Trace) → written (t ++ u) ≡ written t ++ written u
written-append [] u = refl
written-append (write_vga_at s row col attr ∷ t) u =
    ap (λ x. s ++ x) (written-append t u) ∙ sym (append_assoc s (written t) (written u))
written-append (write_char_at c row col attr ∷ t) u = written-append t u
written-append (clear_screen ∷ t) u = written-append t u
written-append (outb port v ∷ t) u = written-append t u
written-append (panic message ∷ t) u = written-append t u

-- A run that returns a value and has written a text.
abbrev pub Prints {ℓ} : {A : Type ℓ} → Run A → Bytes → A → Type ℓ
Prints r x a = (t : Trace) × (r ≡ returned t a) × (written t ≡ x)

pub then-Prints :
    {A B : Type 0} (r : Run A) (f : A → Run B) (x y : Bytes) (a : A) (b : B)
    → Prints r x a
    → Prints (f a) y b
    → Prints (r >>= f) (x ++ y) b
then-Prints r f x y a b (t, e, w) (u, e', w') =
    (t ++ u, rw (e, e') refl, written-append t u ∙ rw (w, w') refl)

pub as_text : {A : Type 0} (r : Run A) (x y : Bytes) (a : A) → Prints r x a → x ≡ y → Prints r y a
as_text r x y a (t, e, w) same = (t, e, w ∙ same)

pub pieces-Prints :
    (ps : List Piece)
    → All IsPiece ps
    → length (shown_all ps) ≤ 510
    → Prints (shell_printf (spelled_all ps ++ 0 ∷ []) (passed_all ps)) (shown_all ps) tt
pieces-Prints ps h room = (
  write_vga_at (shown_all ps) here here 0x07 ∷ [],
  shell_printf-shown ps h room,
  append-nil (shown_all ps),
)

pub end_line-Prints :
    (t rest : Bytes) → IsText t → length t ≤ 16 → Prints (end_line (t ++ 0 ∷ rest)) (ending t) tt
unfolding end_line ending
end_line-Prints t rest h short =
    let ps = lit (codes "  |") ∷ text t rest ∷ lit (codes "|\n") ∷ [] in
    let pieces : All IsPiece ps = (omega arith, (h, (omega arith, tt))) in
    let room : length (shown_all ps) ≤ 510 = omega (arith, length-shown_all ps, short) in
    pieces-Prints ps pieces room

pub heading-Prints :
    (addr i : ℕ)
    → Prints (shell_printf (literal "0x%08x: ") (int (u32 (addr + i)) ∷ [])) (heading addr i) tt
unfolding heading
heading-Prints addr i =
    let ps = lit (codes "0x") ∷ hexa_08 (u32 (addr + i)) ∷ lit (codes ": ") ∷ [] in
    let pieces : All IsPiece ps = (omega arith, (omega arith, (omega arith, tt))) in
    let room : length (shown_all ps) ≤ 510 =
      omega (arith, length-shown_all ps, length-hex_text 8 (u32 (addr + i))) in
    pieces-Prints ps pieces room

pub byte-Prints :
    (b : ℕ)
    → b < 256
    → Prints (shell_printf (literal "%02x ") (int b ∷ [])) (hex_text 8 b ++ b' ' ∷ []) tt
byte-Prints b h =
    let ps = hexa_02 b ∷ lit (codes " ") ∷ [] in
    let pieces : All IsPiece ps = (omega arith, (omega arith, tt)) in
    let room : length (shown_all ps) ≤ 510 =
      omega (arith, length-shown_all ps, length-hex_text 8 b) in
    pieces-Prints ps pieces room
