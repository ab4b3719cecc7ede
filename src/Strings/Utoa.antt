-- ===== src/Strings/Utoa.antt =====
-- `utoa`: the digits are stored from the last to the first, and then reversed in place.
pub mod Digits
pub mod Reverse
pub mod Laws
use micro_kernel.Base.{
  ℕ, zero, suc, ◌+◌, ◌-◌, ◌/◌, ◌%◌, Option, none, some, ◌==◌, ltb, ◌||◌, if◌then◌else◌, ◌>>=◌, ◌>>◌,
  get_elem?, store, Bytes,
}
use micro_kernel.Base.Int.{ℤ, pos, pos_part, ltb_ℤ}

unfoldable pub digit_char : ℕ → ℕ
digit_char v = if ltb v 10 then b'0' + v else b'A' + (v - 10)

-- `while (value > 0)` with the index of `ptr`. `none` is a store out of bounds.
unfoldable pub emit : ℕ → ℕ → ℕ → Bytes → ℕ → Option (Bytes × ℕ)
emit zero value base str i = if value == 0 then some (str, i) else none
emit (suc fuel) value base str i =
    let rest =
      (store str i (digit_char (value % base)) >>= λ str'.
      emit fuel (value / base) base str' (i + 1)) in
    if value == 0 then some (str, i) else rest

-- `while (ptr1 < ptr)`, by the indices of `ptr1` and `ptr`.
unfoldable pub swap_ends : ℕ → Bytes → ℕ → ℕ → Option Bytes
swap_ends zero str lo hi = if ltb lo hi then none else some str
swap_ends (suc fuel) str lo hi =
    let rest = (do
      tmp ← get_elem? str hi
      c ← get_elem? str lo
      str₁ ← store str hi c
      str₂ ← store str₁ lo tmp
      swap_ends fuel str₂ (lo + 1) (hi - 1)) in
    if ltb lo hi then rest else some str

-- An unsigned int has at most 32 digits, in base 2.
abbrev pub max_digits : ℕ
max_digits = 32

unfoldable pub utoa_digits : ℕ → Bytes → ℕ → Option Bytes
utoa_digits value str base = do
  (str₁, n) ← emit max_digits value base str 0
  str₂ ← store str₁ n 0
  swap_ends max_digits str₂ 0 (n - 1)

unfoldable pub utoa : ℕ → Bytes → ℤ → Option Bytes
utoa value str base =
    if ltb_ℤ base (pos 2) || ltb_ℤ (pos 36) base
    then store str 0 0
    else if value == 0
    then (store str 0 b'0' >>= λ str'. store str' 1 0)
    else utoa_digits value str (pos_part base)
