-- ===== src/Core/Bitmap.antt =====
-- coresystem.c, part 2: the bitmap of physical pages.
mod Bits
pub mod Change
pub mod Empty
pub mod Refine
pub mod Sets
mod Tests
use micro_kernel.Base.{
  ℕ, zero, suc, ◌+◌, ◌-◌, ◌*◌, ◌/◌, ◌%◌, ◌^◌, ◌==◌, leb, not, if◌then◌else◌, Bool, true, false,
  Option, none, some, ◌>>=◌, bit_and, bit_or, get_elem?, store, replicate, u8, Bytes, ◌<<<◌,
}

-- `PMM_TOTAL_PAGES` and `PMM_BITMAP_SIZE` for 128 MB of pages of 4096 bytes.
abbrev pub max_pages : ℕ
max_pages = 128 * 1024 * 1024 / 4096

abbrev pub bitmap_size : ℕ
bitmap_size = max_pages / 8

-- The static variables.
pub record Bitmap : Type 0 where
  pub bytes : Bytes
  pub last_allocated_page : ℕ
  pub total_pages : ℕ
  pub used_pages : ℕ

abbrev pub initial : Bitmap
initial = record {
  bytes = replicate bitmap_size 0;
  last_allocated_page = 0;
  total_pages = 0;
  used_pages = 0;
}

-- `~` on 32 bits.
abbrev pub bit_not : ℕ → ℕ
bit_not a = 2 ^ 32 - 1 - a

-- The byte with the bit set, and with the bit cleared.
unfoldable pub with_bit : ℕ → ℕ → ℕ
with_bit b i = u8 (bit_or b (1 <<< i))

unfoldable pub without_bit : ℕ → ℕ → ℕ
without_bit b i = u8 (bit_and b (bit_not (1 <<< i)))

unfoldable pub has_bit : ℕ → ℕ → Bool
has_bit b i = not (bit_and b (1 <<< i) == 0)

unfoldable pub pmm_bitmap_set : ℕ → Bitmap → Option Bitmap
pmm_bitmap_set page_index s = if leb s.total_pages page_index then some s else (do
  b ← get_elem? s.bytes (page_index / 8)
  bytes ← store s.bytes (page_index / 8) (with_bit b (page_index % 8))
  some (record s { bytes = bytes }))

unfoldable pub pmm_bitmap_unset : ℕ → Bitmap → Option Bitmap
pmm_bitmap_unset page_index s = if leb s.total_pages page_index then some s else (do
  b ← get_elem? s.bytes (page_index / 8)
  bytes ← store s.bytes (page_index / 8) (without_bit b (page_index % 8))
  some (record s { bytes = bytes }))

unfoldable pub pmm_bitmap_test : ℕ → Bitmap → Option Bool
pmm_bitmap_test page_index s =
    if leb s.total_pages page_index
    then some true
    else (do b ← get_elem? s.bytes (page_index / 8); some (has_bit b (page_index % 8)))
