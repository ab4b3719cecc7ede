-- ===== src/Kernel/Hex.antt =====
-- `hex_to_str`.
use micro_kernel.Base.{
  ℕ, zero, suc, ◌+◌, ◌*◌, ◌/◌, ◌%◌, ◌^◌, ◌<◌, ◌≡◌, refl, ap, ◌∙◌, [], ◌∷◌, ◌++◌, Option, some,
  ◌>>=◌, arith, bit_and, store, get_elem?, get_or, get_elem?-eq-get_or, length, IsText, ◌≢◌, ◌==◌,
  true, false, if◌then◌else◌, listed-get_or, Bytes, codes, ◌>>>◌,
}
use micro_kernel.Base.Bits.{bit_and_nibble, passes, passes_at}
use micro_kernel.Strings.Text.{read_text, read_text-append}
use native.Mathlib.Nat.{div-div-eq-div-mul}

abbrev pub hex : Bytes
hex = codes "0123456789ABCDEF"

-- The loop, with the index that is next and all those below it.
unfoldable pub write_digits : ℕ → ℕ → Bytes → Option Bytes
write_digits zero n out = some out
write_digits (suc i) n out = do
  c ← get_elem? hex (bit_and (n >>> (i * 4)) 0xF)
  out' ← store out (i + 2) c
  write_digits i n out'

unfoldable pub hex_to_str : ℕ → Bytes → Option Bytes
hex_to_str n out0 = do
  out1 ← store out0 0 b'0'
  out2 ← store out1 1 b'x'
  out3 ← write_digits 8 n out2
  store out3 10 0

-- The eight hexadecimal digits, the lowest first.
abbrev pub low_first : ℕ → ℕ → Bytes
low_first zero n = []
low_first (suc k) n = get_or hex (n % 16) 0 ∷ low_first k (n / 16)

digit_at :
    (n i : ℕ)
    → get_elem? hex (bit_and (n >>> (i * 4)) 0xF) ≡ some (get_or hex (n / 2 ^ (i * 4) % 16) 0)
digit_at n i =
    ap (get_elem? hex) (bit_and_nibble (n / 2 ^ (i * 4)))
    ∙ get_elem?-eq-get_or hex (n / 2 ^ (i * 4) % 16) 0 (omega arith)

hex_digit-nonzero : (d : ℕ) → d < 16 → get_or hex d 0 ≢ 0
hex_digit-nonzero d h e = absurd (
    ground (
      arith,
      e,
      passes_at (λ n. if get_or hex n 0 == 0 then false else true) 16 d h (unfold passes in refl),
    ))

low_first-IsText : (k n : ℕ) → IsText (low_first k n)
low_first-IsText zero n = tt
low_first-IsText (suc k) n = (hex_digit-nonzero (n % 16) (omega arith), low_first-IsText k (n / 16))

-- What the function writes for a number.
abbrev pub report : ℕ → Bytes
report n = codes "0x" ++ low_first 8 n

pub read_text-report : (n : ℕ) → read_text (report n ++ 0 ∷ []) ≡ some (report n)
read_text-report n =
    read_text-append (report n) [] (omega arith, (omega arith, low_first-IsText 8 n))

-- Into any array of eleven bytes and for any number the function writes `0x`, the eight digits and
-- the terminator, within the array; but the lowest digit comes first, so that the text shows the
-- digits of the number in the reverse of the usual order.
pub hex_to_str-low_first :
    (n : ℕ) (buffer : Bytes) → length buffer ≡ 11 → hex_to_str n buffer ≡ some (report n ++ 0 ∷ [])
unfolding hex_to_str write_digits
hex_to_str-low_first n buffer h =
    rw
      (
        listed-get_or buffer 11 0 h,
        digit_at n 7,
        digit_at n 6,
        digit_at n 5,
        digit_at n 4,
        digit_at n 3,
        digit_at n 2,
        digit_at n 1,
        digit_at n 0,
      )
      (let div_1 : n / 1 ≡ n = omega arith in
        rw
          (
            div_1,
            div-div-eq-div-mul n 16 16,
            div-div-eq-div-mul n 256 16,
            div-div-eq-div-mul n 4096 16,
            div-div-eq-div-mul n 65536 16,
            div-div-eq-div-mul n 1048576 16,
            div-div-eq-div-mul n 16777216 16,
          )
          refl)
