-- ===== src/Core/Printf/Call.antt =====
-- `shell_printf` and the text that it shows.
use micro_kernel.Base.{
  ℕ, zero, suc, ◌-◌, ◌/◌, ◌%◌, ◌^◌, ◌≤◌, ◌≡◌, refl, ◌∙◌, ◌==◌, leb, not, ◌&&◌, Bool-cases, inl, inr,
  List, [], ◌∷◌, ◌++◌, arith, length, Bytes, IsText, All, All-append, All-take, if◌then◌else◌, true,
}
use micro_kernel.Strings.Utoa.Laws.{printed-IsText}
use micro_kernel.Core.Panic.Hex.{high_first, high_first-IsLine}
use micro_kernel.Core.Panic.Text.{IsLine}
use micro_kernel.Core.Printf.Number.{decimal}
use micro_kernel.Core.Printf.HexText.{hex_text}
use micro_kernel.Core.Printf.Render.{
  Piece, lit, percent, dec, hexa, hexa_02, hexa_08, char, text, IsPiece, shown, shown_all,
  spelled_all, passed_all, added, filled, filled-shown_all,
}
use micro_kernel.Console.{Run, returned, undefined, write_vga_at, here, ◌>>=◌, call, lift}
use micro_kernel.Strings.Text.{read_text, read_text-append}
use micro_kernel.Core.Printf.{Arg, printf_text}
use micro_kernel.Core.Printf.Fill.{printf_text-filled}

unfoldable pub shell_printf : Bytes → List Arg → Run (Unit {0})
shell_printf fmt args = do
  buf ← lift (printf_text fmt args)
  written ← lift (read_text buf)
  call (write_vga_at written here here 0x07)

lit-IsText : (t : Bytes) → IsPiece (lit t) → IsText t
lit-IsText [] h = tt
lit-IsText (c ∷ t) ((hc, hp), h) = (hc, lit-IsText t h)

line-IsText : (t : Bytes) → IsLine t → IsText t
line-IsText [] h = tt
line-IsText (c ∷ t) ((hc, hn), h) = (hc, line-IsText t h)

hex_text-IsText : (i v : ℕ) → IsText (hex_text i v)
unfolding hex_text
hex_text-IsText zero v = tt
hex_text-IsText (suc i) v = elim (Bool-cases (v / 16 ^ i % 16 == 0 && not (i == 0))) [
  | inl e ↦ rw e (hex_text-IsText i v)
  | inr e ↦ rw e (line-IsText (high_first (suc i) v) (high_first-IsLine (suc i) v))
]

decimal-IsText : (v : ℕ) → IsText (decimal v)
decimal-IsText v = elim (Bool-cases (leb (2 ^ 31) v)) [
  | inl e ↦ rw e (omega arith, printed-IsText 10 (2 ^ 32 - v))
  | inr e ↦ rw e (printed-IsText 10 v)
]

shown-IsText : (p : Piece) → IsPiece p → IsText (shown p)
shown-IsText (lit t) h = lit-IsText t h
shown-IsText percent h = (omega arith, tt)
shown-IsText (dec v) h = decimal-IsText v
shown-IsText (hexa v) h = hex_text-IsText 8 v
shown-IsText (hexa_02 v) h = hex_text-IsText 8 v
shown-IsText (hexa_08 v) h = hex_text-IsText 8 v
shown-IsText (char c) (hc, h) = (h, tt)
shown-IsText (text t rest) h = h

added-IsText : (p : Piece) (out : Bytes) → IsPiece p → IsText (added p out)
added-IsText (lit t) out h = All-take _ (511 - length out) t (lit-IsText t h)
added-IsText percent out h = shown-IsText percent h
added-IsText (dec v) out h = shown-IsText (dec v) h
added-IsText (hexa v) out h = shown-IsText (hexa v) h
added-IsText (hexa_02 v) out h = shown-IsText (hexa_02 v) h
added-IsText (hexa_08 v) out h = shown-IsText (hexa_08 v) h
added-IsText (char c) out h = shown-IsText (char c) h
added-IsText (text t rest) out h = All-take _ (511 - length out) t h

filled-IsText :
    (ps : List Piece) (out : Bytes) → All IsPiece ps → IsText out → IsText (filled ps out)
filled-IsText [] out h t = t
filled-IsText (p ∷ ps) out (hp, h) t = elim (Bool-cases (leb 511 (length out))) [
  | inl e ↦ rw e t
  | inr e ↦ rw e (
      filled-IsText ps (out ++ added p out) h
        (All-append _ out (added p out) t (added-IsText p out hp)))
]

-- For every list of pieces, the signed decimals any ints but the least, `shell_printf` with the format that spells the pieces and with their
-- arguments: the pieces fill the buffer one after the other, a literal or a text up to 511 bytes,
-- and any other (`%%`, a signed decimal, a hexadecimal number, a character) as a whole, until there
-- are 511 bytes or more. If there are at most 511 then, the one call writes them at the cursor. If
-- there are more, because a number or its sign did not fit, the function writes behind its buffer of
-- 512 bytes. The conversions `%02x` and `%08x` show the same as `%x`, without any padding.
pub shell_printf-filled :
    (ps : List Piece)
    → All IsPiece ps
    → shell_printf (spelled_all ps ++ 0 ∷ []) (passed_all ps) ≡ (
        if leb (length (filled ps [])) 511
        then returned (write_vga_at (filled ps []) here here 0x07 ∷ []) tt
        else undefined)
unfolding shell_printf
shell_printf-filled ps h = elim (Bool-cases (leb (length (filled ps [])) 511)) [
  | inl e ↦
      rw (printf_text-filled ps h, e, read_text-append (filled ps []) [] (filled-IsText ps [] h tt))
        refl
  | inr e ↦ rw (printf_text-filled ps h, e) refl
]

-- Where the pieces show at most 510 bytes, all of what they show is written.
pub shell_printf-shown :
    (ps : List Piece)
    → All IsPiece ps
    → length (shown_all ps) ≤ 510
    → shell_printf (spelled_all ps ++ 0 ∷ []) (passed_all ps)
      ≡ returned (write_vga_at (shown_all ps) here here 0x07 ∷ []) tt
shell_printf-shown ps h room =
    let whole : filled ps [] ≡ shown_all ps = filled-shown_all ps [] (omega arith) in
    let fits : leb (length (shown_all ps)) 511 ≡ true = ground arith in
    shell_printf-filled ps h ∙ rw (whole, fits) refl
