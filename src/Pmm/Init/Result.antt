-- ===== src/Pmm/Init/Result.antt =====
-- The state in which `init_pmm` leaves the allocator, and its two panics.
use micro_kernel.Base.{
  ℕ, ◌+◌, ◌%◌, ◌^◌, ◌≤◌, ◌<◌, ◌≡◌, ◌≢◌, refl, List, [], ◌∷◌, arith, bit_and, u32, codes,
}
use micro_kernel.Console.{returned, halted, panic}
use micro_kernel.Pmm.{Pmm, page_size}
use micro_kernel.Pmm.Multiboot.{Memory, MemoryMap, read_info, mboot_flag_mmap, read_u32-lt}
use micro_kernel.Pmm.Init.{Region, no_region, align_up, set_bounds, init_pmm}
use micro_kernel.Pmm.Init.Scan.{IsLaid, longest, scan_map_ends}
use micro_kernel.Pmm.Alloc.Valid.{IsValid}

pub align_up_lem :
    (a : ℕ)
    → a + 4096 ≤ 2 ^ 32
    → (align_up a % 4096 ≡ 0) × (a ≤ align_up a) × (align_up a < a + 4096)
unfolding align_up
align_up_lem a h = (ground arith, ground arith, ground arith)

-- The boot loader's map: the flag is set and the entries are laid out.
pub record HasMap (m : Memory) (mbd : ℕ) (es : List MemoryMap) : Type 0 where
  pub flag : bit_and (read_info m mbd).flags mboot_flag_mmap ≢ 0
  pub laid :
      IsLaid m
        (read_info m mbd).mmap_addr
        (u32 ((read_info m mbd).mmap_addr + (read_info m mbd).mmap_length))
        es

mmap_addr-lt : (m : Memory) (mbd : ℕ) → (read_info m mbd).mmap_addr < 2 ^ 32
unfolding read_info
mmap_addr-lt m mbd = read_u32-lt m (mbd + 44)

-- With a map the rest of the function runs on the longest usable region.
pub init_pmm-set_bounds :
    (m : Memory) (kernel_end mbd : ℕ) (es : List MemoryMap)
    → HasMap m mbd es
    → init_pmm m kernel_end mbd ≡ set_bounds kernel_end (longest no_region es)
unfolding init_pmm
init_pmm-set_bounds m kernel_end mbd es h = ground (
  arith,
  scan_map_ends m (read_info m mbd).mmap_addr
      (u32 ((read_info m mbd).mmap_addr + (read_info m mbd).mmap_length)) es h.laid (omega arith)
      (mmap_addr-lt m mbd),
)

-- The end of a region, as the two 32-bit casts and the 32-bit sum give it.
abbrev pub memory_end_of : Region → ℕ
memory_end_of r = u32 (u32 r.base + u32 r.len)

abbrev pub started : ℕ → Region → Pmm
started kernel_end r = record {
  memory_end = memory_end_of r;
  current_break = align_up kernel_end;
  start_addr = align_up kernel_end;
}

-- Without the memory map's flag `init_pmm` panics and never returns, whatever else memory holds.
-- (The flag is bit 6 of the boot information.)
pub init_pmm_no_map :
    (m : Memory) (kernel_end mbd : ℕ)
    → bit_and (read_info m mbd).flags mboot_flag_mmap ≡ 0
    → init_pmm m kernel_end mbd
      ≡ halted (panic (codes "Memory map not provided by bootloader!") ∷ [])
unfolding init_pmm
init_pmm_no_map m kernel_end mbd h = ground arith

-- With a map whose longest usable region ends at or below the first page behind the kernel,
-- `init_pmm` panics and never returns.
pub init_pmm_no_room :
    (m : Memory) (kernel_end mbd : ℕ) (es : List MemoryMap)
    → HasMap m mbd es
    → memory_end_of (longest no_region es) ≤ align_up kernel_end
    → init_pmm m kernel_end mbd ≡ halted (panic (codes "Not enough memory to start PMM!") ∷ [])
unfolding set_bounds
init_pmm_no_room m kernel_end mbd es h full =
    ground (arith, init_pmm-set_bounds m kernel_end mbd es h)

pub init_pmm-started :
    (m : Memory) (kernel_end mbd : ℕ) (es : List MemoryMap)
    → HasMap m mbd es
    → align_up kernel_end < memory_end_of (longest no_region es)
    → init_pmm m kernel_end mbd ≡ returned [] (started kernel_end (longest no_region es))
unfolding set_bounds
init_pmm-started m kernel_end mbd es h room =
    ground (arith, init_pmm-set_bounds m kernel_end mbd es h)

-- The longest usable region lies below the last page of the 32-bit addresses and reaches
-- behind the first page after the kernel.
pub record IsRoomy (kernel_end : ℕ) (r : Region) : Type 0 where
  pub low_kernel : kernel_end + 4096 ≤ 2 ^ 32
  pub low_region : r.base + r.len + 4096 < 2 ^ 32
  pub reaches : align_up kernel_end < r.base + r.len

-- With a map whose longest usable region is roomy, `init_pmm` returns without a call to the
-- display, in a valid state: the break stands on the first page at or behind the kernel's end, and
-- the end is the region's.
pub init_pmm-IsValid :
    (m : Memory) (kernel_end mbd : ℕ) (es : List MemoryMap)
    → HasMap m mbd es
    → IsRoomy kernel_end (longest no_region es)
    → (s : Pmm) × (init_pmm m kernel_end mbd ≡ returned [] s)
      × IsValid s
      × (kernel_end ≤ s.current_break)
      × (s.current_break < kernel_end + page_size)
      × (s.start_addr ≡ s.current_break)
      × (s.memory_end ≡ (longest no_region es).base + (longest no_region es).len)
init_pmm-IsValid m kernel_end mbd es h roomy = (
  started kernel_end (longest no_region es),
  init_pmm-started m kernel_end mbd es h (omega arith),
  record {
    start_page = (align_up_lem kernel_end (roomy.low_kernel)).0;
    break_page = (align_up_lem kernel_end (roomy.low_kernel)).0;
    from_start = omega arith;
    to_end = omega arith;
    room = omega arith;
  },
  (align_up_lem kernel_end (roomy.low_kernel)).1,
  (align_up_lem kernel_end (roomy.low_kernel)).2,
  refl,
  omega arith,
)
