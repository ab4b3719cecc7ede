-- ===== src/Core/Printf.antt =====
-- coresystem.c, part 1: `shell_printf`.
pub mod Number
pub mod Call
pub mod Fill
pub mod HexText
pub mod Render
mod Rounds
mod Tests
use micro_kernel.Base.{
  ℕ, zero, suc, ◌+◌, ◌-◌, ◌*◌, ◌/◌, ◌%◌, ◌^◌, ◌==◌, ltb, leb, ◌&&◌, ◌||◌, not, if◌then◌else◌, Bool,
  true, false, List, [], ◌∷◌, ◌++◌, reverse, Option, none, some, ◌>>=◌, bit_and, get_elem?, length,
  u8, u32, Bytes, ◌>>>◌,
}
use micro_kernel.Core.Panic.{hex}

-- A variable argument: an int, by its 32 bits, or the text that a pointer points to. An argument of
-- the other kind, or a missing one, is undefined.
pub data Arg : Type 0 where
  int : ℕ → Arg
  str : Bytes → Arg

-- `*p++ = c`, on the part of `buf[512]` that is written.
unfoldable pub put : ℕ → Bytes → Option Bytes
put c out = if ltb (length out) 512 then some (out ++ c ∷ []) else none

unfoldable pub put_all : Bytes → Bytes → Option Bytes
put_all [] out = some out
put_all (c ∷ t) out = put c out >>= put_all t

-- `%s`: the loop stops at the terminator or when one byte is left.
unfoldable pub put_string : Bytes → Bytes → Option Bytes
put_string [] out = none
put_string (c ∷ s) out =
    let rest = (put c out >>= put_string s) in
    if c == 0 || leb 511 (length out) then some out else rest

-- `while (uv)`: the digits in `numbuf`, the lowest first, in the room that is left of its 32 bytes.
unfoldable pub number_digits : ℕ → ℕ → Option Bytes
number_digits zero uv = if uv == 0 then some [] else none
number_digits (suc room) uv =
    let rest = (number_digits room (uv / 10) >>= λ t. some ((b'0' + uv % 10) ∷ t)) in
    if uv == 0 then some [] else rest

unfoldable pub is_negative : ℕ → Bool
is_negative v = leb (2 ^ 31) v

-- `neg ? -v : v`: the least int has no negation, so that it is undefined there.
unfoldable pub magnitude : ℕ → Option ℕ
magnitude v = if v == 2 ^ 31 then none else if is_negative v then some (2 ^ 32 - v) else some v

-- `%d`: the digits and the sign go to `numbuf[32]`, and from its end to the buffer.
unfoldable pub with_sign : ℕ → Bytes → Option Bytes
with_sign v digits =
    if is_negative v
    then if ltb (length digits) 32 then some (digits ++ b'-' ∷ []) else none
    else some digits

unfoldable pub put_decimal : ℕ → Bytes → Option Bytes
put_decimal v out = do
  uv ← magnitude v
  digits ← (if uv == 0 then some (b'0' ∷ []) else number_digits 32 uv)
  numbuf ← with_sign v digits
  put_all (reverse numbuf) out

-- `%x`: the rounds that are left, and `started`.
unfoldable pub put_hex : ℕ → ℕ → Bool → Bytes → Option Bytes
put_hex zero v started out = some out
put_hex (suc i) v started out = do
  let nib = bit_and (v >>> (i * 4)) 0xF
  let shown = not (nib == 0) || started || (i == 0)
  out' ← (if shown then (get_elem? hex nib >>= λ c. put c out) else some out)
  put_hex i v (shown || started) out'

-- `%2` and `%8`: all digits of a width.
unfoldable pub put_width : ℕ → ℕ → Bytes → Option Bytes
put_width zero v out = some out
put_width (suc i) v out = do
  c ← get_elem? hex (bit_and (v >>> (i * 4)) 0xF)
  out' ← put c out
  put_width i v out'

unfoldable pub width_of : ℕ → ℕ
width_of c = if c == b'2' then 2 else if c == b'8' then 8 else 0

abbrev pub with_int : List Arg → (ℕ → Option Bytes) → Option (List Arg × Bytes)
with_int [] f = none
with_int (int v ∷ args) f = f v >>= λ out. some (args, out)
with_int (str s ∷ args) f = none

abbrev pub with_str : List Arg → (Bytes → Option Bytes) → Option (List Arg × Bytes)
with_str [] f = none
with_str (int v ∷ args) f = none
with_str (str s ∷ args) f = f s >>= λ out. some (args, out)

-- The `switch`.
unfoldable pub convert : ℕ → List Arg → Bytes → Option (List Arg × Bytes)
convert c args out =
    if c == b's'
    then with_str args (λ s. put_string s out)
    else if c == b'd'
    then with_int args (λ v. put_decimal v out)
    else if c == b'x'
    then with_int args (λ v. put_hex 8 v false out)
    else if c == b'0' || c == b'2' || c == b'8'
    then with_int args (λ v. put_width (width_of c) v out)
    else if c == b'c'
    then with_int args (λ v. put (u8 v) out)
    else (put c out >>= λ out'. some (args, out'))

abbrev pub is_digit : ℕ → Bool
is_digit c = leb b'0' c && leb c b'9'

-- `while (*f >= '0' && *f <= '9') f++`.
unfoldable pub skip_digits : Bytes → Bytes
skip_digits [] = []
skip_digits (c ∷ f) = if is_digit c then skip_digits f else c ∷ f

-- From behind the `%` to the conversion's character. The source also sets `pad`, which nothing
-- reads.
unfoldable pub skip_pad : Bytes → Bytes
skip_pad [] = []
skip_pad (c ∷ f) = if c == b'0' then skip_digits f else c ∷ f

abbrev pub uncons : Bytes → Option (ℕ × Bytes)
uncons [] = none
uncons (c ∷ f) = some (c, f)

-- One round, on a character `c` and what follows it: the rest of the format and of the arguments,
-- and the output.
unfoldable pub piece : ℕ → Bytes → List Arg → Bytes → Option (Bytes × List Arg × Bytes)
piece c f args out =
    if c == b'%'
    then (do
      (c', f') ← uncons (skip_pad f)
      (args', out') ← convert c' args out
      some (f', args', out'))
    else (put c out >>= λ out'. some (f, args, out'))

-- The loop over the format, with a fuel that its length suffices for. A read behind the format's
-- terminator is `none`.
unfoldable pub format : ℕ → Bytes → List Arg → Bytes → Option Bytes
format zero f args out = none
format (suc fuel) [] args out = none
format (suc fuel) (c ∷ f) args out =
    let rest = (piece c f args out >>= λ (f', args', out'). format fuel f' args' out') in
    if c == 0 || leb 511 (length out) then some out else rest

-- The bytes that are passed to `write_vga_at`, with the terminator.
unfoldable pub printf_text : Bytes → List Arg → Option Bytes
printf_text fmt args = format (length fmt) fmt args [] >>= put 0
