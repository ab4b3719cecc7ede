-- ===== src/Pmm/Alloc/Valid.antt =====
-- The invariant of the allocator, and the counters under it.
use micro_kernel.Base.{◌+◌, ◌%◌, ◌^◌, ◌≤◌, ◌<◌, ◌≡◌, arith}
use micro_kernel.Pmm.{Pmm, page_size}
use micro_kernel.Pmm.Alloc.{
  pmm_alloc_page, pmm_get_used_mem, pmm_get_total_mem, pmm_get_used_memory, pmm_get_free_memory,
}

-- The break stands on a page between the start and the end, and the end is below the last page of
-- the address space, so that no sum wraps.
pub record IsValid (s : Pmm) : Type 0 where
  pub start_page : s.start_addr % 4096 ≡ 0
  pub break_page : s.current_break % 4096 ≡ 0
  pub from_start : s.start_addr ≤ s.current_break
  pub to_end : s.current_break ≤ s.memory_end
  pub room : s.memory_end + 4096 < 2 ^ 32

pub alloc_page-IsValid : {s : Pmm} → IsValid s → IsValid (pmm_alloc_page s).1
unfolding pmm_alloc_page
alloc_page-IsValid v = ground arith

pub alloc_page_keeps :
    (s : Pmm)
    → ((pmm_alloc_page s).1.memory_end ≡ s.memory_end)
      × ((pmm_alloc_page s).1.start_addr ≡ s.start_addr)
unfolding pmm_alloc_page
alloc_page_keeps s = ground arith

-- In every valid state the used and the free memory make up the total, the memory used is a whole
-- number of pages, and none of the three counters wraps or exceeds the memory between the start
-- and the end.
pub counters_lem :
    {s : Pmm}
    → IsValid s
    → (pmm_get_used_memory s + pmm_get_free_memory s ≡ pmm_get_total_mem s)
      × (pmm_get_used_mem s + s.start_addr ≡ s.current_break)
      × (pmm_get_used_mem s % page_size ≡ 0)
      × (pmm_get_total_mem s + s.start_addr ≡ s.memory_end)
unfolding pmm_get_used_memory pmm_get_free_memory pmm_get_total_mem pmm_get_used_mem
counters_lem v = (ground arith, ground arith, ground arith, ground arith)
