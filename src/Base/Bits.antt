-- ===== src/Base/Bits.antt =====
-- A test at every number of a range, and `&` with a mask of low ones as arithmetic.
use Prim.Native.Nat.{
  max, bit_or, bit_or-bitwise, ℕ, zero, suc, ◌+◌, ◌*◌, ◌/◌, ◌%◌, ◌≤◌, ◌<◌, min, digits, bit_and,
  bit_and-bitwise,
}
use mathlib.Core.Path.{◌≡◌, refl, sym, ◌∙◌}
use mathlib.Core.Bool.{Bool, true, false}
use native.Mathlib.Omega.{arith}
use micro_kernel.Base.Tests.{if◌then◌else◌}

module _ (test : ℕ → Bool) where
  -- The test passes at all numbers below the bound.
  unfoldable pub passes : ℕ → Bool
  passes zero = true
  passes (suc bound) = if test bound then passes bound else false

  pub passes_at : (bound n : ℕ) → n < bound → passes bound ≡ true → test n ≡ true
  unfolding passes
  passes_at zero n below ok = absurd (omega arith)
  passes_at (suc bound) n below ok = ground (arith, passes_at bound n)

-- The mask of `k` ones, and what it keeps of a number.
abbrev pub ones : ℕ → ℕ
ones zero = 0
ones (suc k) = 2 * ones k + 1

abbrev pub low : ℕ → ℕ → ℕ
low zero a = 0
low (suc k) a = 2 * low k (a / 2) + a % 2

-- `&` takes the digits one by one; `count` bounds them.
abbrev anded : ℕ → ℕ → ℕ → ℕ
anded count a b = digits (λ _. zero) min count a b

low-zero : (k : ℕ) → low k 0 ≡ 0
low-zero zero = refl
low-zero (suc k) = omega (arith, low-zero k)

anded-ones : (count a k : ℕ) → a ≤ count → anded count a (ones k) ≡ low k a
anded-ones zero zero k h = sym (low-zero k)
anded-ones zero (suc a) k h = absurd (omega arith)
anded-ones (suc count) zero k h = sym (low-zero k)
anded-ones (suc count) (suc a) zero h =
    omega (arith, anded-ones count (suc a / 2) zero (omega arith))
anded-ones (suc count) (suc a) (suc k) h =
    let shifted : (2 * ones k + 1) / 2 ≡ ones k = omega arith in
    rw shifted (omega (arith, anded-ones count (suc a / 2) k (omega arith)))

pub bit_and-ones : (a k : ℕ) → bit_and a (ones k) ≡ low k a
bit_and-ones a k = bit_and-bitwise a (ones k) ∙ anded-ones a a k (omega arith)

-- The widths that the kernel masks with.
pub bit_and_word : (a : ℕ) → bit_and a 0xFFFF ≡ a % 0x10000
bit_and_word a = omega (arith, bit_and-ones a 16)

pub bit_and_nibble : (a : ℕ) → bit_and a 0xF ≡ a % 16
bit_and_nibble a = omega (arith, bit_and-ones a 4)

-- `|` with a mask of `k` ones, and with bit `k` alone.
abbrev pub raised : ℕ → ℕ → ℕ
raised zero a = a
raised (suc k) a = 2 * raised k (a / 2) + 1

abbrev pub bit_alone : ℕ → ℕ
bit_alone zero = 1
bit_alone (suc k) = 2 * bit_alone k

abbrev pub with_bit_on : ℕ → ℕ → ℕ
with_bit_on zero a = a / 2 * 2 + 1
with_bit_on (suc k) a = 2 * with_bit_on k (a / 2) + a % 2

abbrev ored : ℕ → ℕ → ℕ → ℕ
ored count a b = digits (λ c. c) max count a b

raised-zero : (k : ℕ) → raised k 0 ≡ ones k
raised-zero zero = refl
raised-zero (suc k) = omega (arith, raised-zero k)

ored-zero : (count a : ℕ) → a ≤ count → ored count a 0 ≡ a
ored-zero zero zero h = refl
ored-zero zero (suc a) h = absurd (omega arith)
ored-zero (suc count) zero h = refl
ored-zero (suc count) (suc a) h = omega (arith, ored-zero count (suc a / 2) (omega arith))

ored-ones : (count a k : ℕ) → a ≤ count → ored count a (ones k) ≡ raised k a
ored-ones zero zero k h = sym (raised-zero k)
ored-ones zero (suc a) k h = absurd (omega arith)
ored-ones (suc count) zero k h = sym (raised-zero k)
ored-ones (suc count) (suc a) zero h = ored-zero (suc count) (suc a) h
ored-ones (suc count) (suc a) (suc k) h =
    let shifted : (2 * ones k + 1) / 2 ≡ ones k = omega arith in
    rw shifted (omega (arith, ored-ones count (suc a / 2) k (omega arith)))

on-zero : (k : ℕ) → with_bit_on k 0 ≡ bit_alone k
on-zero zero = refl
on-zero (suc k) = omega (arith, on-zero k)

ored-alone : (count a k : ℕ) → a ≤ count → ored count a (bit_alone k) ≡ with_bit_on k a
ored-alone zero zero k h = sym (on-zero k)
ored-alone zero (suc a) k h = absurd (omega arith)
ored-alone (suc count) zero k h = sym (on-zero k)
ored-alone (suc count) (suc a) zero h = omega (arith, ored-zero count (suc a / 2) (omega arith))
ored-alone (suc count) (suc a) (suc k) h =
    let shifted : 2 * bit_alone k / 2 ≡ bit_alone k = omega arith in
    rw shifted (omega (arith, ored-alone count (suc a / 2) k (omega arith)))

pub bit_or-ones : (a k : ℕ) → bit_or a (ones k) ≡ raised k a
bit_or-ones a k = bit_or-bitwise a (ones k) ∙ ored-ones a a k (omega arith)

pub bit_or-alone : (a k : ℕ) → bit_or a (bit_alone k) ≡ with_bit_on k a
bit_or-alone a k = bit_or-bitwise a (bit_alone k) ∙ ored-alone a a k (omega arith)

-- Bit `k`.
abbrev pub bit_at : ℕ → ℕ → ℕ
bit_at zero a = a % 2
bit_at (suc k) a = bit_at k (a / 2)

pub bit_at-with_bit_on : (k a : ℕ) → bit_at k (with_bit_on k a) ≡ 1
bit_at-with_bit_on zero a = omega arith
bit_at-with_bit_on (suc k) a =
    let half : (2 * with_bit_on k (a / 2) + a % 2) / 2 ≡ with_bit_on k (a / 2) = omega arith in
    rw half (bit_at-with_bit_on k (a / 2))

anded_le : (count a b : ℕ) → anded count a b ≤ b
anded_le zero a b = omega arith
anded_le (suc count) zero b = omega arith
anded_le (suc count) (suc a) b = omega (arith, anded_le count (suc a / 2) (b / 2))

pub bit_and_le : (a b : ℕ) → bit_and a b ≤ b
bit_and_le a b = omega (arith, bit_and-bitwise a b, anded_le a a b)
