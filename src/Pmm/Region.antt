-- ===== src/Pmm/Region.antt =====
-- From the boot loader's map to the pages that are handed out.
use micro_kernel.Base.{ℕ, ◌+◌, ◌%◌, ◌≤◌, ◌<◌, ◌≡◌, ◌⊎◌, List, [], ◌∷◌, arith, All}
use micro_kernel.Console.{returned}
use micro_kernel.Pmm.{Pmm, page_size}
use micro_kernel.Pmm.Multiboot.{Memory, MemoryMap}
use micro_kernel.Pmm.Init.{Region, no_region, align_up, init_pmm}
use micro_kernel.Pmm.Init.Scan.{longest}
use micro_kernel.Pmm.Init.Result.{HasMap, IsRoomy, init_pmm-IsValid, init_pmm-started, started}
use micro_kernel.Pmm.Alloc.{pmm_alloc_page}
use micro_kernel.Pmm.Alloc.Pool.{Op}
use micro_kernel.Pmm.Alloc.Refine.{run, run-IsLater, IsLater}

-- No page, or a page behind the kernel that lies in the region as a whole.
abbrev pub IsPageOf : ℕ → Region → ℕ → Type 0
IsPageOf kernel_end r p =
    (p ≡ 0) ⊎ ((kernel_end ≤ p) × (p % 4096 ≡ 0) × (r.base ≤ p) × (p + 4096 ≤ r.base + r.len))

later-IsPageOf :
    (kernel_end : ℕ) (r : Region) (low end : ℕ) (ps : List ℕ)
    → kernel_end ≤ low
    → r.base ≤ kernel_end
    → end ≡ r.base + r.len
    → All (IsLater low end) ps
    → All (IsPageOf kernel_end r) ps
later-IsPageOf kernel_end r low end [] h k e a = tt
later-IsPageOf kernel_end r low end (p ∷ ps) h k e (a, rest) =
    (ground arith, later-IsPageOf kernel_end r low end ps h k e rest)

-- Where the longest usable region of the map is roomy and holds the kernel's end, `init_pmm`
-- returns, and whatever calls of the allocator follow, each answer is the null pointer or an
-- aligned page behind the kernel that lies wholly in that region.
pub pages_in_region :
    (m : Memory) (kernel_end mbd : ℕ) (es : List MemoryMap) (ops : List Op)
    → HasMap m mbd es
    → IsRoomy kernel_end (longest no_region es)
    → (longest no_region es).base ≤ kernel_end
    → (s : Pmm) × (init_pmm m kernel_end mbd ≡ returned [] s)
      × All (IsPageOf kernel_end (longest no_region es)) (run s ops)
pages_in_region m kernel_end mbd es ops h roomy inside =
    let (s, returns, valid, low, _, _, end) = init_pmm-IsValid m kernel_end mbd es h roomy in
    (
      s,
      returns,
      later-IsPageOf kernel_end _ s.current_break s.memory_end _ low inside end
          (run-IsLater s ops valid),
    )

-- Where the longest usable region begins behind the first page after the kernel, `init_pmm` still
-- returns, and the first page that is handed out lies below the region.
pub first_page_outside :
    (m : Memory) (kernel_end mbd : ℕ) (es : List MemoryMap)
    → HasMap m mbd es
    → IsRoomy kernel_end (longest no_region es)
    → align_up kernel_end < (longest no_region es).base
    → align_up kernel_end + page_size ≤ (longest no_region es).base + (longest no_region es).len
    → (s : Pmm) × (init_pmm m kernel_end mbd ≡ returned [] s)
      × ((pmm_alloc_page s).0 ≡ align_up kernel_end)
      × ((pmm_alloc_page s).0 < (longest no_region es).base)
unfolding pmm_alloc_page
first_page_outside m kernel_end mbd es h roomy outside fits = (
  started kernel_end (longest no_region es),
  init_pmm-started m kernel_end mbd es h (omega arith),
  ground arith,
  ground arith,
)
