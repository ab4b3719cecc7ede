-- ===== src/Pmm/Alloc/Refine.antt =====
-- The allocator behaves as the pool of the pages between its start and its end.
use micro_kernel.Base.{
  ℕ, ◌+◌, ◌-◌, ◌*◌, ◌/◌, ◌≤◌, ◌≡◌, refl, List, [], ◌∷◌, map, Option, none, some, arith, All, subst,
  ◌⊎◌, ◌%◌, ◌≢◌,
}
use micro_kernel.Pmm.{Pmm, page_size}
use micro_kernel.Pmm.Alloc.{pmm_alloc_page, pmm_free_page}
use micro_kernel.Pmm.Alloc.Valid.{IsValid, alloc_page-IsValid, alloc_page_keeps}
use micro_kernel.Pmm.Alloc.Pool.{Pool, Op, alloc, free, take_page, run_pool}

-- The answers of the code to a sequence of calls.
unfoldable pub run : Pmm → List Op → List ℕ
run s [] = []
run s (alloc ∷ ops) = let (page, s') = pmm_alloc_page s in page ∷ run s' ops
run s (free a ∷ ops) = run (pmm_free_page a s) ops

-- The pages that the state has handed out, of those that fit.
abbrev pub pool_of : Pmm → Pool
pool_of s = record {
  used = (s.current_break - s.start_addr) / 4096;
  size = (s.memory_end - s.start_addr) / 4096;
}

-- A page's address, and the null pointer for no page.
abbrev pub address : ℕ → Option ℕ → ℕ
address start none = 0
address start (some i) = start + 4096 * i

pub alloc_page_refines :
    {s : Pmm}
    → IsValid s
    → ((pmm_alloc_page s).0 ≡ address s.start_addr (take_page (pool_of s)).0)
      × (pool_of (pmm_alloc_page s).1 ≡ (take_page (pool_of s)).1)
unfolding pmm_alloc_page take_page
alloc_page_refines v = (ground arith, ground arith)

-- From a valid state, the answers to any sequence of `pmm_alloc_page` and `pmm_free_page` calls are
-- those of the pool: the pages from the start on, one after the other, and the null pointer once
-- all that fit below `memory_end` are handed out. Freeing changes no answer.
pub run_refines :
    (s : Pmm) (ops : List Op)
    → IsValid s
    → run s ops ≡ map (address s.start_addr) (run_pool (pool_of s) ops)
unfolding run run_pool pmm_free_page
run_refines s [] v = refl
run_refines s (alloc ∷ ops) v = rw (
  ← (alloc_page_refines v).0,
  ← (alloc_page_refines v).1,
  run_refines (pmm_alloc_page s).1 ops (alloc_page-IsValid v),
  (alloc_page_keeps s).1,
)
run_refines s (free a ∷ ops) v = run_refines s ops v

-- An answer to a later call: the null pointer, or a whole page from `low` on and below the end.
abbrev pub IsLater : ℕ → ℕ → ℕ → Type 0
IsLater low end p = (p ≡ 0) ⊎ ((low ≤ p) × (p % 4096 ≡ 0) × (p + 4096 ≤ end))

IsLater-mono :
    (low low' end : ℕ) (ps : List ℕ)
    → low ≤ low'
    → All (IsLater low' end) ps
    → All (IsLater low end) ps
IsLater-mono low low' end [] h a = tt
IsLater-mono low low' end (p ∷ ps) h (later, rest) =
    (ground arith, IsLater-mono low low' end ps h rest)

pub run-IsLater :
    (s : Pmm) (ops : List Op) → IsValid s → All (IsLater s.current_break s.memory_end) (run s ops)
unfolding run pmm_free_page
run-IsLater s [] v = tt
run-IsLater s (alloc ∷ ops) v = (
  unfold pmm_alloc_page in ground arith,
  IsLater-mono _ (pmm_alloc_page s).1.current_break _ _ (unfold pmm_alloc_page in ground arith) (
      subst (λ e. All (IsLater (pmm_alloc_page s).1.current_break e) (run (pmm_alloc_page s).1 ops))
        (alloc_page_keeps s).0 (run-IsLater (pmm_alloc_page s).1 ops (alloc_page-IsValid v))),
)
run-IsLater s (free a ∷ ops) v = run-IsLater s ops v

-- A page that a valid state hands out is aligned and lies between the start and the end, and
-- whatever calls follow, each of their answers is the null pointer or an aligned page that begins
-- where this one ends or later, and ends below the end: no two pages overlap.
pub alloc_page_fresh :
    (s : Pmm) (ops : List Op)
    → IsValid s
    → (pmm_alloc_page s).0 ≢ 0
    → let (p, s') = pmm_alloc_page s in
      (s.start_addr ≤ p)
      × (p % 4096 ≡ 0)
      × (p + page_size ≤ s.memory_end)
      × All (IsLater (p + page_size) s.memory_end) (run s' ops)
alloc_page_fresh s ops v h = (
  unfold pmm_alloc_page in ground arith,
  unfold pmm_alloc_page in ground arith,
  unfold pmm_alloc_page in ground arith,
  IsLater-mono _ (pmm_alloc_page s).1.current_break _ _ (unfold pmm_alloc_page in ground arith) (
      subst (λ e. All (IsLater (pmm_alloc_page s).1.current_break e) (run (pmm_alloc_page s).1 ops))
        (alloc_page_keeps s).0 (run-IsLater (pmm_alloc_page s).1 ops (alloc_page-IsValid v))),
)
