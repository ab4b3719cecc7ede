-- ===== src/Core/Hexdump/Command.antt =====
-- The command with its arguments.
use micro_kernel.Base.{ℕ, ◌^◌, ◌<◌, ◌≡◌, ◌≢◌, List, ◌∷◌, ◌++◌, ◌∙◌, length, Bytes}
use micro_kernel.Base.Int.{pos}
use micro_kernel.Console.{Trace, returned}
use micro_kernel.Pmm.Multiboot.{Memory}
use micro_kernel.Core.Printf.Number.{decimal}
use micro_kernel.Core.Hexdump.{cmd_hexdump}
use micro_kernel.Core.Hexdump.Returns.{cmd_hexdump-Returns}
use micro_kernel.Core.Hexdump.Rows.{written, dump_text}
use micro_kernel.Core.Hexdump.Shown.{range_shown}

-- With two arguments that are the decimal texts of ints (the least one excepted, and the length
-- not 0), and whatever other arguments follow, memory, and first contents of the array of 17
-- bytes: the command returns 0, and what it writes is the text of the range. This is one row for
-- each 16 bytes and one for what remains, each with its address, its bytes in hexadecimal, spaces
-- in the place of each byte that is missing, and its bytes as characters, a dot for those that are
-- not printable.
pub cmd_hexdump-shown :
    (m : Memory) (ascii_buf name rest rest' : Bytes) (addr len : ℕ) (more : List Bytes)
    → length ascii_buf ≡ 17
    → (addr < 2 ^ 32) × (addr ≢ 2 ^ 31)
    → (len < 2 ^ 32) × (len ≢ 2 ^ 31)
    → 0 < len
    → (t : Trace) × (cmd_hexdump m ascii_buf
          (name ∷ (decimal addr ++ 0 ∷ rest) ∷ (decimal len ++ 0 ∷ rest') ∷ more)
        ≡ returned t (pos 0))
      × (written t ≡ dump_text m addr len)
cmd_hexdump-shown m ascii_buf name rest rest' addr len more size ha hl positive =
    let (t, runs, text) = range_shown m addr len ascii_buf size positive in
    (t, (cmd_hexdump-Returns m ascii_buf name rest rest' addr len more size ha hl).0 ∙ runs, text)
