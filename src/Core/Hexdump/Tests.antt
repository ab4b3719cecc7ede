-- ===== src/Core/Hexdump/Tests.antt =====
-- `hexdump` on a small range.
use micro_kernel.Base.{
  refl, if◌then◌else◌, ◌==◌, codes, ℕ, ◌≡◌, [], ◌∷◌, ◌++◌, arith, u8, replicate, Bytes,
  length-replicate, literal,
}
use micro_kernel.Base.Int.{pos}
use micro_kernel.Pmm.Multiboot.{Memory, read_u8}
use micro_kernel.Core.Printf.Number.{decimal}
use micro_kernel.Core.Hexdump.{cmd_hexdump}
use micro_kernel.Core.Hexdump.Command.{cmd_hexdump-shown}
use micro_kernel.Core.Hexdump.Rows.{
  written, dump_text, full_rows, last_row, row, heading, ending, hexes, chars, padding,
}
use micro_kernel.Console.{Trace, returned}
use micro_kernel.Core.Printf.HexText.{hex_text}

abbrev pattern : Memory
pattern a = u8 a

abbrev stack : Bytes
stack = replicate 17 0xCC

cmd_hexdump-shown_example :
    (t : Trace) × (cmd_hexdump pattern stack
        (literal "hexdump" ∷ (decimal 4096 ++ 0 ∷ []) ∷ (decimal 20 ++ 0 ∷ []) ∷ [])
      ≡ returned t (pos 0))
    × (written t ≡ dump_text pattern 4096 20)
cmd_hexdump-shown_example =
    cmd_hexdump-shown pattern stack (literal "hexdump") [] [] 4096 20 []
      (length-replicate {A = ℕ} 17 0xCC) (omega arith, omega arith) (omega arith, omega arith)
      (omega arith)

-- Two bytes, the second not printable.
abbrev two : Memory
two a = if a == 16 then b'A' else 0xE9

two_bytes :
    dump_text two 16 2
    ≡ codes "0x10: 41 e9 "
      ++ (replicate 42 b' ' ++ (codes "  |A." ++ (replicate 14 b' ' ++ codes "|\n")))
unfolding dump_text full_rows last_row row heading ending hexes chars padding hex_text read_u8
two_bytes = refl
