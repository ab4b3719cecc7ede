-- ===== src/Core/Hexdump.antt =====
-- coresystem.c, part 9: the command `hexdump`.
pub mod Returns
pub mod Rows
pub mod Loop
pub mod Last
pub mod Shown
pub mod Command
mod Tests
use micro_kernel.Base.{
  ℕ, zero, suc, ◌+◌, ◌-◌, ◌%◌, ◌^◌, ◌==◌, ltb, leb, ◌&&◌, if◌then◌else◌, Bool, List, [], ◌∷◌,
  Option, get_elem?, store, length, u32, Bytes, literal,
}
use micro_kernel.Base.Int.{ℤ, pos, negsuc}
use micro_kernel.Console.{Run, pure, ◌>>=◌, ◌>>◌, lift}
use micro_kernel.Pmm.Multiboot.{Memory, read_u8}
use micro_kernel.Core.Atoi.{atoi}
use micro_kernel.Core.Printf.{Arg, int, str}
use micro_kernel.Core.Printf.Call.{shell_printf}

-- An int as an unsigned one.
abbrev pub to_u32 : ℤ → ℕ
to_u32 (pos n) = u32 n
to_u32 (negsuc n) = 2 ^ 32 - 1 - n

abbrev pub ascii_char : ℕ → ℕ
ascii_char b = if leb 32 b && leb b 126 then b else b'.'

unfoldable pub end_line : Bytes → Run (Unit {0})
end_line ascii_buf = shell_printf (literal "  |%s|\n") (str ascii_buf ∷ [])

-- `i % 16 == 0`: the line before is ended, and the next one begins.
unfoldable pub begin_line : ℕ → ℕ → Bytes → Run (Unit {0})
begin_line addr i ascii_buf =
    if i % 16 == 0
    then (do
      if ltb 0 i then end_line ascii_buf else pure tt
      shell_printf (literal "0x%08x: ") (int (u32 (addr + i)) ∷ []))
    else pure tt

-- The loop over the bytes, from the index `i`.
unfoldable pub dump : ℕ → ℕ → Memory → ℕ → Bytes → Run Bytes
dump zero i m addr ascii_buf = pure ascii_buf
dump (suc left) i m addr ascii_buf = do
  begin_line addr i ascii_buf
  let b = read_u8 m (addr + i)
  shell_printf (literal "%02x ") (int b ∷ [])
  ascii_buf' ← lift (store ascii_buf (i % 16) (ascii_char b))
  dump left (i + 1) m addr ascii_buf'

-- The loop that fills the last line, from the index `i`.
unfoldable pub fill : ℕ → ℕ → Bytes → Run Bytes
fill zero i ascii_buf = pure ascii_buf
fill (suc left) i ascii_buf = do
  shell_printf (literal "   ") []
  ascii_buf' ← lift (store ascii_buf i b' ')
  fill left (i + 1) ascii_buf'

unfoldable pub fill_rest : ℕ → Bytes → Run Bytes
fill_rest len ascii_buf =
    if len % 16 == 0 then pure ascii_buf else fill (16 - len % 16) (len % 16) ascii_buf

-- With the address and the length; `ascii_buf` is what the stack holds in the array of 17 bytes.
unfoldable pub dump_range : Memory → ℕ → ℕ → Bytes → Run ℤ
dump_range m addr len ascii_buf = do
  ascii_buf₁ ← lift (store ascii_buf 16 0)
  ascii_buf₂ ← dump len 0 m addr ascii_buf₁
  ascii_buf₃ ← fill_rest len ascii_buf₂
  end_line ascii_buf₃
  pure (pos 0)

-- `argv` has the text of each argument; `argc` is their number.
unfoldable pub cmd_hexdump : Memory → Bytes → List Bytes → Run ℤ
cmd_hexdump m ascii_buf argv =
    if ltb (length argv) 3
    then (do shell_printf (literal "usage: hexdump <address> <length>\n") []; pure (negsuc 0))
    else (do
      arg₁ ← lift (get_elem? argv 1)
      addr ← lift (atoi arg₁)
      arg₂ ← lift (get_elem? argv 2)
      len ← lift (atoi arg₂)
      dump_range m (to_u32 addr) (to_u32 len) ascii_buf)
