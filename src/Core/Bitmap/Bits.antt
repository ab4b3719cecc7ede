-- ===== src/Core/Bitmap/Bits.antt =====
-- One bit of a byte, by tables.
use micro_kernel.Base.{
  ℕ, ◌<◌, ◌≡◌, refl, subst, arith, Bool, true, false, ◌==◌, not, ◌&&◌, ◌||◌, ◌*◌, ◌/◌, ◌%◌, ◌+◌,
}
use micro_kernel.Base.Bits.{passes, passes_at}
use micro_kernel.Core.Bitmap.{with_bit, without_bit, has_bit}

abbrev same : Bool → Bool → Bool
same true b = b
same false b = not b

-- One number for a byte and two bits.
abbrev set_ok : ℕ → Bool
set_ok n =
    let b = n / 64 in
    let i = n / 8 % 8 in let j = n % 8 in same (has_bit (with_bit b i) j) ((i == j) || has_bit b j)

abbrev unset_ok : ℕ → Bool
unset_ok n =
    let b = n / 64 in
    let i = n / 8 % 8 in
    let j = n % 8 in same (has_bit (without_bit b i) j) (not (i == j) && has_bit b j)

set_table : passes set_ok 16384 ≡ true
unfolding passes with_bit has_bit
set_table = refl

unset_table : passes unset_ok 16384 ≡ true
unfolding passes without_bit has_bit
unset_table = refl

same_eq : (a b : Bool) → same a b ≡ true → a ≡ b
same_eq true true h = refl
same_eq false false h = refl
same_eq true false h = absurd (ground arith)
same_eq false true h = absurd (ground arith)

-- The number for a byte and two bits.
abbrev row : ℕ → ℕ → ℕ → ℕ
row b i j = (b * 8 + i) * 8 + j

at_row :
    (P : ℕ → ℕ → ℕ → Type 0)
    → ((n : ℕ) → n < 16384 → P (n / 64) (n / 8 % 8) (n % 8))
    → (b i j : ℕ) → b < 256
    → i < 8
    → j < 8
    → P b i j
at_row P table b i j hb hi hj =
    let at_b : row b i j / 64 ≡ b = omega arith in
    let at_i : row b i j / 8 % 8 ≡ i = omega arith in
    let at_j : row b i j % 8 ≡ j = omega arith in
    subst (λ x. P x i j) at_b
      (subst (λ x. P (row b i j / 64) x j) at_i
        (subst (P (row b i j / 64) (row b i j / 8 % 8)) at_j (table (row b i j) (omega arith))))

-- Setting or clearing one bit of a byte leaves the others.
pub has_bit-with_bit :
    (b i j : ℕ) → b < 256 → i < 8 → j < 8 → has_bit (with_bit b i) j ≡ (i == j) || has_bit b j
has_bit-with_bit =
    at_row (λ b i j. has_bit (with_bit b i) j ≡ (i == j) || has_bit b j)
      (λ n h. same_eq _ _ (passes_at set_ok 16384 n h set_table))

pub has_bit-without_bit :
    (b i j : ℕ)
    → b < 256
    → i < 8
    → j < 8
    → has_bit (without_bit b i) j ≡ not (i == j) && has_bit b j
has_bit-without_bit =
    at_row (λ b i j. has_bit (without_bit b i) j ≡ not (i == j) && has_bit b j)
      (λ n h. same_eq _ _ (passes_at unset_ok 16384 n h unset_table))
