-- ===== src/Core/Bitmap/Change.antt =====
-- The state that holds a set of pages, and one changed byte of it.
use micro_kernel.Base.{
  ℕ, ◌/◌, ◌%◌, ◌≤◌, ◌<◌, ◌≡◌, refl, ◌∙◌, Bool, true, false, inl, inr, Bool-cases, ◌&&◌, ◌||◌, not,
  ◌==◌, leb, if◌then◌else◌, some, arith, length, length-set, get_or, get_elem?-eq-get_or,
  get_or-set_self, get_or-set_ne, set, store-eq-set,
}
use micro_kernel.Core.Bitmap.{
  Bitmap, max_pages, bitmap_size, with_bit, without_bit, has_bit, pmm_bitmap_set, pmm_bitmap_unset,
  pmm_bitmap_test,
}
use micro_kernel.Core.Bitmap.Bits.{has_bit-with_bit, has_bit-without_bit}

-- All counted pages have a bit in the array, which holds bytes.
pub record IsValid (s : Bitmap) : Type 0 where
  pub size : length s.bytes ≡ bitmap_size
  pub count : s.total_pages ≤ max_pages
  pub are_bytes : (k : ℕ) → get_or s.bytes k 0 < 256

-- The state holds the set, on the pages that are counted.
abbrev pub Holds : Bitmap → (ℕ → Bool) → Type 0
Holds s used = (q : ℕ) → pmm_bitmap_test q s ≡ some (if leb s.total_pages q then true else used q)

abbrev pub change : (s : Bitmap) (p v : ℕ) → Bitmap
change s p v = record s { bytes = set s.bytes (p / 8) v }

lt→leb : (total p : ℕ) → p < total → leb total p ≡ false
lt→leb total p h = ground arith

in_bounds : (s : Bitmap) (p : ℕ) → IsValid s → p < s.total_pages → p / 8 < length s.bytes
in_bounds s p h hp = omega (arith, h.size, h.count)

pub change-IsValid :
    (s : Bitmap) (p v : ℕ) → IsValid s → v < 256 → p < s.total_pages → IsValid (change s p v)
change-IsValid s p v h hv hp = record {
  size = length-set s.bytes (p / 8) v ∙ h.size;
  count = h.count;
  are_bytes = λ k. ground (
    arith,
    h.are_bytes k,
    get_or-set_self s.bytes (p / 8) v 0,
    get_or-set_ne s.bytes (p / 8) k v 0,
    h.size,
  );
}

pub bits_of-change :
    (s : Bitmap) (p v q : ℕ)
    → IsValid s
    → p < s.total_pages
    → q < s.total_pages
    → pmm_bitmap_test q (change s p v)
      ≡ some (has_bit (if p / 8 == q / 8 then v else get_or s.bytes (q / 8) 0) (q % 8))
unfolding pmm_bitmap_test
bits_of-change s p v q h hp hq = ground (
  arith,
  h.size,
  h.count,
  length-set s.bytes (p / 8) v,
  get_elem?-eq-get_or (set s.bytes (p / 8) v) (q / 8) 0,
  get_or-set_self s.bytes (p / 8) v 0,
  get_or-set_ne s.bytes (p / 8) (q / 8) v 0,
)

pub set-change :
    (s : Bitmap) (p : ℕ)
    → IsValid s
    → p < s.total_pages
    → pmm_bitmap_set p s ≡ some (change s p (with_bit (get_or s.bytes (p / 8) 0) (p % 8)))
unfolding pmm_bitmap_set
set-change s p h hp =
    rw
      (
        lt→leb s.total_pages p hp,
        get_elem?-eq-get_or s.bytes (p / 8) 0 (in_bounds s p h hp),
        store-eq-set s.bytes (p / 8) (with_bit (get_or s.bytes (p / 8) 0) (p % 8))
            (in_bounds s p h hp),
      )
      refl

pub unset-change :
    (s : Bitmap) (p : ℕ)
    → IsValid s
    → p < s.total_pages
    → pmm_bitmap_unset p s ≡ some (change s p (without_bit (get_or s.bytes (p / 8) 0) (p % 8)))
unfolding pmm_bitmap_unset
unset-change s p h hp =
    rw
      (
        lt→leb s.total_pages p hp,
        get_elem?-eq-get_or s.bytes (p / 8) 0 (in_bounds s p h hp),
        store-eq-set s.bytes (p / 8) (without_bit (get_or s.bytes (p / 8) 0) (p % 8))
            (in_bounds s p h hp),
      )
      refl

used-bit :
    (s : Bitmap) (used : ℕ → Bool) (q : ℕ)
    → IsValid s
    → Holds s used
    → q < s.total_pages
    → has_bit (get_or s.bytes (q / 8) 0) (q % 8) ≡ used q
unfolding pmm_bitmap_test
used-bit s used q h holds hq =
    ground (arith, holds q, get_elem?-eq-get_or s.bytes (q / 8) 0, in_bounds s q h hq)

pub mark_bit :
    (p q : ℕ) (s : Bitmap) (used : ℕ → Bool)
    → IsValid s
    → Holds s used
    → q < s.total_pages
    → has_bit
        (if p / 8 == q / 8
          then with_bit (get_or s.bytes (p / 8) 0) (p % 8)
          else get_or s.bytes (q / 8) 0)
        (q % 8)
      ≡ (p == q) || used q
mark_bit p q s used h holds hq = elim (Bool-cases (p / 8 == q / 8)) [
  | inl e ↦
      let here : p / 8 ≡ q / 8 = ground arith in
      rw (e, here)
        (has_bit-with_bit (get_or s.bytes (q / 8) 0) (p % 8) (q % 8) (h.are_bytes (q / 8))
            (omega arith) (omega arith)
          ∙ rw (used-bit s used q h holds hq) (ground arith))
  | inr e ↦ rw (e, used-bit s used q h holds hq) (ground arith)
]

pub clear_bit :
    (p q : ℕ) (s : Bitmap) (used : ℕ → Bool)
    → IsValid s
    → Holds s used
    → q < s.total_pages
    → has_bit
        (if p / 8 == q / 8
          then without_bit (get_or s.bytes (p / 8) 0) (p % 8)
          else get_or s.bytes (q / 8) 0)
        (q % 8)
      ≡ not (p == q) && used q
clear_bit p q s used h holds hq = elim (Bool-cases (p / 8 == q / 8)) [
  | inl e ↦
      let here : p / 8 ≡ q / 8 = ground arith in
      rw (e, here)
        (has_bit-without_bit (get_or s.bytes (q / 8) 0) (p % 8) (q % 8) (h.are_bytes (q / 8))
            (omega arith) (omega arith)
          ∙ rw (used-bit s used q h holds hq) (ground arith))
  | inr e ↦ rw (e, used-bit s used q h holds hq) (ground arith)
]

pub with_bit-lt : (b i : ℕ) → with_bit b i < 256
unfolding with_bit
with_bit-lt b i = omega arith

pub without_bit-lt : (b i : ℕ) → without_bit b i < 256
unfolding without_bit
without_bit-lt b i = omega arith
