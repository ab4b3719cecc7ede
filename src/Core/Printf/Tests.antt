-- ===== src/Core/Printf/Tests.antt =====
-- Runs of `shell_printf`, and the theorems at inputs that meet their hypotheses.
use micro_kernel.Base.{
  ℕ, zero, suc, replicate, leb, if◌then◌else◌, ◌≡◌, refl, [], ◌∷◌, ◌++◌, some, List, All, length,
  arith, codes, literal,
}
use micro_kernel.Strings.Utoa.{digit_char}
use micro_kernel.Strings.Utoa.Digits.{digits}
use micro_kernel.Console.{returned, undefined, write_vga_at, here}
use micro_kernel.Core.Printf.HexText.{hex_text}
use micro_kernel.Core.Printf.Render.{
  Piece, lit, percent, dec, hexa_08, char, IsPiece, spelled_all, passed_all, filled, text,
}
use micro_kernel.Core.Printf.Call.{shell_printf, shell_printf-filled}
use micro_kernel.Core.Printf.{
  int, str, put, put_all, put_string, number_digits, is_negative, magnitude, with_sign, put_decimal,
  put_hex, put_width, width_of, convert, skip_digits, skip_pad, piece, format, printf_text,
}

negative :
    printf_text
      (literal "%d|%x|%s|%08x|%%")
      (int 4294967254 ∷ int 48879 ∷ str (literal "ab") ∷ int 255 ∷ [])
    ≡ some (codes "-42|beef|ab|ff|%" ++ 0 ∷ [])
unfolding put put_all put_string number_digits is_negative magnitude with_sign put_decimal put_hex
    put_width width_of convert skip_digits skip_pad piece format printf_text
negative = refl

-- `%2x` writes two digits, and the `x` as it stands.
width_two : printf_text (literal "%2x") (int 0x1ab ∷ []) ≡ some (codes "abx" ++ 0 ∷ [])
unfolding put put_all put_string number_digits is_negative magnitude with_sign put_decimal put_hex
    put_width width_of convert skip_digits skip_pad piece format printf_text
width_two = refl

abbrev pieces : List Piece
pieces =
    lit (codes "0x") ∷ hexa_08 48879 ∷ lit (codes ": ") ∷ dec 4294967254 ∷ percent ∷ char b'!' ∷ []

pieces-All : All IsPiece pieces
pieces-All = omega arith

writes_all :
    shell_printf (spelled_all pieces ++ 0 ∷ []) (passed_all pieces)
    ≡ returned (write_vga_at (codes "0xbeef: -42%!") here here 0x07 ∷ []) tt
unfolding hex_text digits digit_char
writes_all = shell_printf-filled pieces pieces-All

-- A literal of 510 bytes, and a number of three digits: one byte too many for the terminator.
abbrev long_pieces : List Piece
long_pieces = lit (replicate 510 b'.') ∷ dec 123 ∷ []

All-replicate : (n : ℕ) → IsPiece (lit (replicate n b'.'))
All-replicate zero = tt
All-replicate (suc n) = ((omega arith, omega arith), All-replicate n)

long_pieces-All : All IsPiece long_pieces
long_pieces-All = (All-replicate 510, omega arith)

shell_printf-filled_example :
    shell_printf (spelled_all long_pieces ++ 0 ∷ []) (passed_all long_pieces) ≡ (
      if leb (length (filled long_pieces [])) 511
      then returned (write_vga_at (filled long_pieces []) here here 0x07 ∷ []) tt
      else undefined)
shell_printf-filled_example = shell_printf-filled long_pieces long_pieces-All

overflows : shell_printf (spelled_all long_pieces ++ 0 ∷ []) (passed_all long_pieces) ≡ undefined
unfolding digits digit_char
overflows = shell_printf-filled long_pieces long_pieces-All

-- A text is cut where one byte is left.
cut : length (filled (text (replicate 600 b'.') [] ∷ percent ∷ []) []) ≡ 511
cut = refl
