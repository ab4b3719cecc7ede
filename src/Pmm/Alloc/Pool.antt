-- ===== src/Pmm/Alloc/Pool.antt =====
-- What the allocator promises: a pool of numbered pages, handed out in order and never taken back.
use micro_kernel.Base.{ℕ, ◌+◌, List, [], ◌∷◌, Option, none, some, ltb, if◌then◌else◌}

pub record Pool : Type 0 where
  pub used : ℕ
  pub size : ℕ

pub data Op : Type 0 where
  alloc : Op
  free : ℕ → Op

unfoldable pub take_page : Pool → Option ℕ × Pool
take_page p = if ltb p.used p.size then (some p.used, record p { used = p.used + 1 }) else (none, p)

-- The answers to a sequence of calls; `free` has none.
unfoldable pub run_pool : Pool → List Op → List (Option ℕ)
run_pool p [] = []
run_pool p (alloc ∷ ops) = let (page, p') = take_page p in page ∷ run_pool p' ops
run_pool p (free a ∷ ops) = run_pool p ops
