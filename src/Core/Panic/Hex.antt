-- ===== src/Core/Panic/Hex.antt =====
-- `panic_vga_print_hex` shows a number.
use micro_kernel.Base.{
  ℕ, zero, suc, ◌+◌, ◌-◌, ◌*◌, ◌/◌, ◌%◌, ◌^◌, ◌≤◌, ◌<◌, ◌≡◌, ◌≢◌, refl, ap, ◌∙◌, ◌==◌, ltb, ◌&&◌,
  not, if◌then◌else◌, [], ◌∷◌, ◌++◌, some, arith, bit_and, get_elem?, get_or, get_elem?-eq-get_or,
  length, Bytes, codes, literal, ◌>>>◌,
}
use micro_kernel.Base.Bits.{bit_and_nibble, passes, passes_at}
use micro_kernel.Core.Panic.{Screen, hex, hex_digits, panic_vga_print_hex, panic_vga_print_str}
use micro_kernel.Core.Panic.Text.{cells, Shows, IsLine, print_line}

-- The hexadecimal digits, the highest first.
abbrev pub high_first : ℕ → ℕ → Bytes
high_first zero n = []
high_first (suc k) n = get_or hex (n / 16 ^ k % 16) 0 ∷ high_first k n

-- The number that hexadecimal digits stand for, read from the left.
abbrev pub digit_value : ℕ → ℕ
digit_value c = if ltb c b'a' then c - b'0' else c - b'a' + 10

abbrev pub hex_value : Bytes → ℕ → ℕ
hex_value [] acc = acc
hex_value (c ∷ t) acc = hex_value t (acc * 16 + digit_value c)

digit_ok : (d : ℕ) → d < 16 → digit_value (get_or hex d 0) ≡ d
digit_ok d h =
    ground
      (arith, passes_at (λ e. digit_value (get_or hex e 0) == e) 16 d h (unfold passes in refl))

pub hex_value-high_first : (n : ℕ) → n < 2 ^ 32 → hex_value (high_first 8 n) 0 ≡ n
hex_value-high_first n h =
    rw
      (
        digit_ok (n / 268435456 % 16) (omega arith),
        digit_ok (n / 16777216 % 16) (omega arith),
        digit_ok (n / 1048576 % 16) (omega arith),
        digit_ok (n / 65536 % 16) (omega arith),
        digit_ok (n / 4096 % 16) (omega arith),
        digit_ok (n / 256 % 16) (omega arith),
        digit_ok (n / 16 % 16) (omega arith),
        digit_ok (n / 1 % 16) (omega arith),
      )
      (omega arith)

digit_at :
    (n i : ℕ)
    → get_elem? hex (bit_and (n >>> (i * 4)) 0xF) ≡ some (get_or hex (n / 2 ^ (i * 4) % 16) 0)
digit_at n i =
    ap (get_elem? hex) (bit_and_nibble (n / 2 ^ (i * 4)))
    ∙ get_elem?-eq-get_or hex (n / 2 ^ (i * 4) % 16) 0 (omega arith)

-- What is shown for a number.
abbrev pub report : ℕ → Bytes
report n = codes "0x" ++ high_first 8 n

pub hex_digits-report :
    (n : ℕ) → hex_digits 8 0 n (literal "0x00000000") ≡ some (report n ++ 0 ∷ [])
unfolding hex_digits
hex_digits-report n =
    rw
      (
        digit_at n 0,
        digit_at n 1,
        digit_at n 2,
        digit_at n 3,
        digit_at n 4,
        digit_at n 5,
        digit_at n 6,
        digit_at n 7,
      )
      refl

shown_digit : (d : ℕ) → d < 16 → (get_or hex d 0 ≢ 0) × (get_or hex d 0 ≢ b'\n')
shown_digit d h =
    let ok =
      passes_at (λ e. not (get_or hex e 0 == 0) && not (get_or hex e 0 == b'\n')) 16 d h
        (unfold passes in refl) in
    (ground (arith, ok), ground (arith, ok))

pub high_first-IsLine : (k n : ℕ) → IsLine (high_first k n)
high_first-IsLine zero n = tt
high_first-IsLine (suc k) n = (shown_digit (n / 16 ^ k % 16) (omega arith), high_first-IsLine k n)

pub report-IsLine : (n : ℕ) → IsLine (report n)
report-IsLine n = ((omega arith, omega arith), ((omega arith, omega arith), high_first-IsLine 8 n))

-- In a place of the screen with ten columns left in its row, the ten characters `0x` and the eight
-- hexadecimal digits of a 32-bit number, the highest first, are shown in the colours from the
-- place on; read from the left the digits give the number; and no other cell of the screen
-- changes.
pub print_hex-report :
    (n x y attr : ℕ) (s : Screen)
    → n < 2 ^ 32
    → length s ≡ cells
    → y < 25
    → x ≤ 70
    → (s' : Screen) × (panic_vga_print_hex n x y attr s ≡ some s')
      × (length s' ≡ length s)
      × Shows (codes "0x" ++ high_first 8 n) (y * 80 + x) attr s s'
      × (hex_value (high_first 8 n) 0 ≡ n)
unfolding panic_vga_print_hex panic_vga_print_str
print_hex-report n x y attr s h size hy hx =
    let line = print_line (report n) [] x x y attr s (report-IsLine n) size hy (omega arith) in
    (line.1, rw (hex_digits-report n, line.2) refl, line.3, line.4, hex_value-high_first n h)
