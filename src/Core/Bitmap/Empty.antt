-- ===== src/Core/Bitmap/Empty.antt =====
-- The bitmap of zeros, on which every counted page is free.
use micro_kernel.Base.{
  ℕ, zero, suc, ◌%◌, ◌/◌, ◌≤◌, ◌<◌, ◌≡◌, refl, false, inl, inr, Bool-cases, leb, some, not, arith,
  length, length-replicate, replicate, Bytes, get_or, get_elem?-eq-get_or, ap,
}
use micro_kernel.Base.Bits.{passes, passes_at}
use micro_kernel.Core.Bitmap.{Bitmap, initial, bitmap_size, max_pages, has_bit, pmm_bitmap_test}
use micro_kernel.Core.Bitmap.Change.{IsValid, Holds}

abbrev pub empty : ℕ → Bitmap
empty n = record initial { total_pages = n }

abbrev zeros : ℕ → Bytes
zeros n = replicate n 0

get_or-zeros : (n k : ℕ) → get_or (zeros n) k 0 ≡ 0
get_or-zeros zero k = refl
get_or-zeros (suc n) zero = refl
get_or-zeros (suc n) (suc k) = get_or-zeros n k

length-zeros : length (zeros bitmap_size) ≡ bitmap_size
length-zeros = length-replicate {A = ℕ} bitmap_size 0

in_zeros : (n q : ℕ) → n ≤ max_pages → q < n → q / 8 < length (zeros bitmap_size)
in_zeros n q room h = omega (arith, length-zeros)

pub empty-IsValid : (n : ℕ) → n ≤ max_pages → IsValid (empty n)
empty-IsValid n room = record {
  size = length-zeros;
  count = room;
  are_bytes = λ k. omega (arith, get_or-zeros bitmap_size k);
}

no_bit : (j : ℕ) → j < 8 → has_bit 0 j ≡ false
no_bit j h =
    ground (arith, passes_at (λ i. not (has_bit 0 i)) 8 j h (unfold passes has_bit in refl))

pub empty-Holds : (n : ℕ) → n ≤ max_pages → Holds (empty n) (λ q. false)
unfolding pmm_bitmap_test
empty-Holds n room q = elim (Bool-cases (leb n q)) [
  | inl e ↦ rw e refl
  | inr e ↦
      rw
        (
          e,
          get_elem?-eq-get_or (zeros bitmap_size) (q / 8) 0 (in_zeros n q room (ground arith)),
          get_or-zeros bitmap_size (q / 8),
        )
        (ap some (no_bit (q % 8) (omega arith)))
]
