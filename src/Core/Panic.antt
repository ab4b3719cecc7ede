-- ===== src/Core/Panic.antt =====
-- coresystem.c, part 8: the panic screen.
pub mod Text
pub mod Hex
pub mod Glyph
pub mod Line
pub mod Halt
mod Tests
use micro_kernel.Base.{
  ℕ, zero, suc, ◌+◌, ◌-◌, ◌*◌, ◌/◌, ◌%◌, ◌==◌, ltb, leb, ◌||◌, if◌then◌else◌, Bool, true, false,
  List, [], ◌∷◌, Option, none, some, ◌>>=◌, ◌>>◌, bit_and, bit_or, get_elem?, store, length, u8,
  u16, u32, Bytes, codes, literal, ◌<<<◌, ◌>>>◌,
}
use micro_kernel.Pmm.Multiboot.{Memory, read_u32}

-- The cells of the text buffer at 0xb8000. A store outside it is `none`.
abbrev pub Screen : Type 0
Screen = List ℕ

-- A signed char in 16 bits: a byte from 128 on is negative.
abbrev pub widen : ℕ → ℕ
widen c = if ltb c 128 then c else 0xFF00 + c

-- No caller has a negative coordinate, so that the guard's tests of `x < 0` and `y < 0` are never
-- met.
unfoldable pub panic_vga_print_char : ℕ → ℕ → ℕ → ℕ → Screen → Option Screen
panic_vga_print_char c x y attr s =
    if leb 80 x || leb 25 y
    then some s
    else store s (y * 80 + x) (bit_or (widen c) (u16 (attr <<< 8)))

-- Where the loop goes on: `x` and `y`.
abbrev pub Place : Type 0
Place = ℕ × ℕ

abbrev pub next_place : ℕ → Place → Place
next_place start (x, y) = if leb 80 (x + 1) then (start, y + 1) else (x + 1, y)

-- The body of the loop over the message.
unfoldable pub print_one : ℕ → ℕ → Place → ℕ → Screen → Option (Place × Screen)
print_one c start (x, y) attr s =
    if c == b'\n'
    then some ((start, y + 1), s)
    else (panic_vga_print_char c x y attr s >>= λ s'. some (next_place start (x, y), s'))

unfoldable pub print_from : Bytes → ℕ → Place → ℕ → Screen → Option (ℕ × Screen)
print_from [] start (x, y) attr s = none
print_from (c ∷ msg) start (x, y) attr s =
    let rest = (print_one c start (x, y) attr s >>= λ (p, s'). print_from msg start p attr s') in
    if c == 0 then some (x, s) else rest

unfoldable pub panic_vga_print_str : Bytes → ℕ → ℕ → ℕ → Screen → Option (ℕ × Screen)
panic_vga_print_str msg x y attr s = print_from msg x (x, y) attr s

-- The same call where the result is not used.
abbrev pub print : Bytes → ℕ → ℕ → ℕ → Screen → Option Screen
print msg x y attr s = panic_vga_print_str msg x y attr s >>= λ (x', s'). some s'

abbrev pub hex : Bytes
hex = codes "0123456789abcdef"

-- The loop of eight rounds, from the round `i`.
unfoldable pub hex_digits : ℕ → ℕ → ℕ → Bytes → Option Bytes
hex_digits zero i n buffer = some buffer
hex_digits (suc left) i n buffer = do
  c ← get_elem? hex (bit_and (n >>> (i * 4)) 0xF)
  buffer' ← store buffer (9 - i) c
  hex_digits left (i + 1) n buffer'

unfoldable pub panic_vga_print_hex : ℕ → ℕ → ℕ → ℕ → Screen → Option Screen
panic_vga_print_hex n x y attr s = do
  buffer ← hex_digits 8 0 n (literal "0x00000000")
  print buffer x y attr s

-- One frame, of the number `i`.
unfoldable pub print_frame : ℕ → ℕ → Screen → Option Screen
print_frame i return_address s = do
  frame_num_str ← store (literal "[ ]") 1 (u8 (b'0' + i))
  s₁ ← print frame_num_str 4 (9 + i) 0x0E s
  panic_vga_print_hex return_address 8 (9 + i) 0x0F s₁

-- The loop, with the rounds that `max_frames` leaves.
unfoldable pub print_frames : ℕ → ℕ → Memory → ℕ → Screen → Option Screen
print_frames zero i m frame_pointer s = some s
print_frames (suc left) i m frame_pointer s =
    let return_address = read_u32 m (frame_pointer + 4) in
    let rest =
      (print_frame i return_address s >>= λ s'.
      print_frames left (i + 1) m (read_u32 m frame_pointer) s') in
    if frame_pointer == 0 || return_address == 0 then some s else rest

unfoldable pub print_stack_trace : Memory → ℕ → ℕ → Screen → Option Screen
print_stack_trace m ebp max_frames s = do
  s₁ ← print (literal "stack trace:") 2 8 0x0C s
  print_frames max_frames 0 m ebp s₁
