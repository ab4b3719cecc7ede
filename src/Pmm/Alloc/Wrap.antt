-- ===== src/Pmm/Alloc/Wrap.antt =====
-- At the top of the address space.
use micro_kernel.Base.{◌+◌, ◌^◌, ◌≤◌, ◌<◌, ◌≡◌, arith}
use micro_kernel.Pmm.{Pmm, page_size}
use micro_kernel.Pmm.Alloc.{pmm_alloc_page}

-- With an end in the last page of the address space and the break on that page, the sum in the
-- guard wraps to 0: the page is handed out although it reaches behind the end, and the next call
-- hands out the address 0.
pub alloc_page_wraps :
    (s : Pmm)
    → s.current_break ≡ 0xfffff000
    → s.memory_end < 2 ^ 32
    → 4096 ≤ s.memory_end
    → let (page, s') = pmm_alloc_page s in
      (page ≡ s.current_break)
      × (s.memory_end < page + page_size)
      × ((pmm_alloc_page s').0 ≡ 0)
      × ((pmm_alloc_page s').1.current_break ≡ 4096)
unfolding pmm_alloc_page
alloc_page_wraps s e h k = (ground arith, ground arith, ground arith, ground arith)
