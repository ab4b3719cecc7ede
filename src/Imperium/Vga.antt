-- ===== src/Imperium/Vga.antt =====
-- main.core.asm, part 14: the text display.
pub mod Tape
pub mod Cursor
pub mod Char
pub mod Typed
use micro_kernel.Base.{
  ℕ, zero, suc, ◌+◌, ◌-◌, ◌*◌, ◌/◌, ◌%◌, ◌^◌, Bool, List, [], ◌∷◌, ◌++◌, ◌&&◌, leb, length, set,
  get_or, Option, none, some, ◌==◌, ltb, if◌then◌else◌, Bytes, u8, u16, u32, get_elem?, store,
  ◌>>>◌, ◌<<<◌,
}
use micro_kernel.Console.{Run, undefined, outb, pure, lift, call, ◌>>=◌, ◌>>◌}
use micro_kernel.Imperium.Repeat.{rep_stos, rep_movs}

abbrev pub width : ℕ
width = 80

abbrev pub height : ℕ
height = 25

abbrev pub vga_memory_address : ℕ
vga_memory_address = 0xB8000

-- The words of the video memory at 0xB8000, the bytes that are stored outside of it, with their
-- addresses and in their order, and the three variables. Registers are of 32 bits.
pub record Vga : Type 0 where
  pub cells : List ℕ
  pub outside : List (ℕ × ℕ)
  pub cursor_x : ℕ
  pub cursor_y : ℕ
  pub text_attribute : ℕ

-- AX from the attribute and the character.
abbrev pub glyph : Vga → ℕ → ℕ
glyph s c = u8 s.text_attribute * 2 ^ 8 + u8 c

-- The low byte of a register is replaced.
abbrev pub low_8 : ℕ → ℕ → ℕ
low_8 r v = r / 2 ^ 8 * 2 ^ 8 + u8 v

-- `jl`: the comparison of signed numbers.
abbrev pub less : ℕ → ℕ → Bool
less a b = ltb (u32 (a + 2 ^ 31)) (u32 (b + 2 ^ 31))

-- The position is in EAX, whose low byte is also the register of the bytes that are written.
unfoldable pub vga_update_hw_cursor : Vga → Run (Unit {0})
vga_update_hw_cursor s = do
  let pos = u32 (width * s.cursor_y + s.cursor_x)
  let with_0F = low_8 pos 0x0F
  call (outb 0x3D4 (u8 with_0F))
  let low_byte = low_8 with_0F with_0F
  call (outb 0x3D5 (u8 low_byte))
  let with_0E = low_8 low_byte 0x0E
  call (outb 0x3D4 (u8 with_0E))
  let high_byte = low_8 (with_0E >>> 8) (with_0E >>> 8)
  call (outb 0x3D5 (u8 high_byte))

unfoldable pub vga_clear_screen : Vga → Run Vga
vga_clear_screen s = do
  cells ← lift (rep_stos (width * height) 0 (glyph s b' ') s.cells)
  let s' = record s { cells = cells; cursor_x = 0; cursor_y = 0 }
  vga_update_hw_cursor s'
  pure s'

unfoldable pub vga_scroll_screen : Vga → Run Vga
vga_scroll_screen s = do
  moved ← lift (rep_movs (width * (height - 1)) width 0 s.cells)
  cleared ← lift (rep_stos width (width * (height - 1)) (glyph s b' ') moved)
  pure (record s { cells = cleared })

-- A byte in the video memory is the low or the high half of its word.
unfoldable pub store_byte : ℕ → ℕ → Vga → Vga
store_byte address b s =
    let at = address - vga_memory_address in
    let old = get_or s.cells (at / 2) 0 in
    let cell = (if at % 2 == 0 then old / 2 ^ 8 * 2 ^ 8 + b else b * 2 ^ 8 + u8 old) in
    if leb vga_memory_address address && ltb at (2 * length s.cells)
    then record s { cells = set s.cells (at / 2) cell }
    else record s { outside = s.outside ++ (address, b) ∷ [] }

-- The address of the cursor's cell is in EAX, but the attribute and the character go to AH and AL
-- before the store to that address: its low half is the word itself.
unfoldable pub put : ℕ → Vga → Vga
put c s =
    let cell = u32 (vga_memory_address + u32 (u32 (width * s.cursor_y + s.cursor_x) * 2)) in
    let ax = glyph s c in
    let eax = cell / 2 ^ 16 * 2 ^ 16 + ax in
    store_byte (u32 (eax + 1)) (ax / 2 ^ 8) (store_byte eax (u8 ax) s)

unfoldable pub check_scroll : Vga → Run Vga
check_scroll s =
    let scrolled = (do s' ← vga_scroll_screen s; pure (record s' { cursor_y = height - 1 })) in
    if less s.cursor_y height then pure s else scrolled

unfoldable pub handle_newline : Vga → Run Vga
handle_newline s = check_scroll (record s { cursor_x = 0; cursor_y = u32 (s.cursor_y + 1) })

unfoldable pub handle_backspace : Vga → Run Vga
handle_backspace s =
    if s.cursor_x == 0
    then pure s
    else pure (put b' ' (record s { cursor_x = u32 (s.cursor_x + 2 ^ 32 - 1) }))

-- The label `.print`.
unfoldable pub print : ℕ → Vga → Run Vga
print c s =
    let s₁ = put c s in
    let s₂ = record s₁ { cursor_x = u32 (s₁.cursor_x + 1) } in
    if less s₂.cursor_x width then pure s₂ else handle_newline s₂

unfoldable pub vga_print_char : ℕ → Vga → Run Vga
vga_print_char c s = do
  s' ←
      (if c == 0x08 then handle_backspace s else if c == b'\n' then handle_newline s else print c s)
  vga_update_hw_cursor s'
  pure s'

-- A text that does not end is read beyond its object.
unfoldable pub vga_print_string : Bytes → Vga → Run Vga
vga_print_string [] s = undefined
vga_print_string (c ∷ msg) s =
    let rest = (vga_print_char c s >>= vga_print_string msg) in if c == 0 then pure s else rest
