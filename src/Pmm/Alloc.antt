-- ===== src/Pmm/Alloc.antt =====
-- `pmm_alloc_page`, `pmm_free_page` and the counters.
pub mod Valid
pub mod Pool
pub mod Refine
pub mod Wrap
use micro_kernel.Base.{ℕ, ◌+◌, ◌-◌, ◌^◌, ◌%◌, ltb, leb, if◌then◌else◌, u32}
use micro_kernel.Pmm.{Pmm, page_size}

-- The page's address, or 0, which is the null pointer.
unfoldable pub pmm_alloc_page : Pmm → ℕ × Pmm
pmm_alloc_page s =
    if ltb s.memory_end (u32 (s.current_break + page_size))
    then (0, s)
    else (s.current_break, record s { current_break = u32 (s.current_break + page_size) })

unfoldable pub pmm_free_page : ℕ → Pmm → Pmm
pmm_free_page p s = s

unfoldable pub pmm_get_used_mem : Pmm → ℕ
pmm_get_used_mem s = if ltb s.current_break s.start_addr then 0 else s.current_break - s.start_addr

unfoldable pub pmm_get_total_mem : Pmm → ℕ
pmm_get_total_mem s = if leb s.memory_end s.start_addr then 0 else s.memory_end - s.start_addr

unfoldable pub pmm_get_used_memory : Pmm → ℕ
pmm_get_used_memory s = pmm_get_used_mem s

unfoldable pub pmm_get_free_memory : Pmm → ℕ
pmm_get_free_memory s = u32 (pmm_get_total_mem s + 2 ^ 32 - pmm_get_used_mem s)
