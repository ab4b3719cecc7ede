-- ===== src/Pmm/Tests.antt =====
-- Runs of the allocator on a small memory, and the theorems at inputs that meet their hypotheses.
use micro_kernel.Base.{◌+◌, ◌%◌, ◌≤◌, ◌<◌, ◌≡◌, refl, [], ◌∷◌, some, map, arith, All, codes}
use micro_kernel.Console.{returned, halted, panic}
use micro_kernel.Pmm.{Pmm, page_size}
use micro_kernel.Pmm.Samples.{
  boot_memory, entries, has_map, has_high_map, IsRoomy-low_map, IsRoomy-high_map,
}
use micro_kernel.Pmm.Multiboot.{read_info, read_map, read_u32, read_u64, read_u8}
use micro_kernel.Pmm.Init.{
  Region, no_region, align_up, scan_map, max_rounds, consider, init_pmm, set_bounds, advance,
}
use micro_kernel.Pmm.Init.Scan.{longest, IsLongest, scan_map-IsLongest}
use micro_kernel.Pmm.Init.Result.{init_pmm-IsValid, init_pmm_no_map}
use micro_kernel.Pmm.Alloc.{
  pmm_alloc_page, pmm_free_page, pmm_get_used_mem, pmm_get_total_mem, pmm_get_used_memory,
  pmm_get_free_memory,
}
use micro_kernel.Pmm.Alloc.Valid.{IsValid, alloc_page-IsValid, counters_lem}
use micro_kernel.Pmm.Alloc.Pool.{alloc, free, run_pool}
use micro_kernel.Pmm.Alloc.Refine.{run, run_refines, pool_of, address}
use micro_kernel.Pmm.Alloc.Wrap.{alloc_page_wraps}
use micro_kernel.Pmm.Region.{IsPageOf, pages_in_region, first_page_outside}

abbrev booted : Pmm
booted = record { memory_end = 0x800000; current_break = 0x106000; start_addr = 0x106000 }

starts : init_pmm (boot_memory 0x40 0x100000) 0x105123 0 ≡ returned [] booted
unfolding init_pmm set_bounds scan_map consider advance align_up read_info read_map read_u64
    read_u32 read_u8
starts = refl

three_pages :
    run booted (alloc ∷ free 0x106000 ∷ alloc ∷ alloc ∷ []) ≡ 0x106000 ∷ 0x107000 ∷ 0x108000 ∷ []
unfolding run pmm_alloc_page pmm_free_page
three_pages = refl

booted-IsValid : IsValid booted
booted-IsValid = omega arith

run_refines_example :
    run booted (alloc ∷ free 3 ∷ alloc ∷ [])
    ≡ map (address 0x106000) (run_pool (pool_of booted) (alloc ∷ free 3 ∷ alloc ∷ []))
run_refines_example = run_refines booted (alloc ∷ free 3 ∷ alloc ∷ []) booted-IsValid

alloc_page-IsValid_example : IsValid (pmm_alloc_page booted).1
alloc_page-IsValid_example = alloc_page-IsValid booted-IsValid

counters_lem_example :
    (pmm_get_used_memory booted + pmm_get_free_memory booted ≡ pmm_get_total_mem booted)
    × (pmm_get_used_mem booted + 0x106000 ≡ 0x106000)
    × (pmm_get_used_mem booted % page_size ≡ 0)
    × (pmm_get_total_mem booted + 0x106000 ≡ 0x800000)
counters_lem_example = counters_lem booted-IsValid

abbrev top : Pmm
top = record { memory_end = 0xffffffff; current_break = 0xfffff000; start_addr = 0x106000 }

alloc_page_wraps_example :
    let (page, s') = pmm_alloc_page top in
    (page ≡ 0xfffff000)
    × (0xffffffff < page + page_size)
    × ((pmm_alloc_page s').0 ≡ 0)
    × ((pmm_alloc_page s').1.current_break ≡ 4096)
alloc_page_wraps_example = alloc_page_wraps top refl (omega arith) (omega arith)

scan_map-IsLongest_example :
    (r : Region) × (scan_map max_rounds (boot_memory 0x40 0x100000) 48 96 no_region ≡ some r)
    × IsLongest r (entries 0x100000)
unfolding read_map read_u64 read_u32 read_u8
scan_map-IsLongest_example =
    scan_map-IsLongest (boot_memory 0x40 0x100000) 48 96 (entries 0x100000)
      (omega arith, refl, omega arith, (omega arith, refl, omega arith, omega arith)) (omega arith)
      (omega arith)

init_pmm-IsValid_example :
    (s : Pmm) × (init_pmm (boot_memory 0x40 0x100000) 0x105123 0 ≡ returned [] s)
    × IsValid s
    × (0x105123 ≤ s.current_break)
    × (s.current_break < 0x105123 + page_size)
    × (s.start_addr ≡ s.current_break)
    × (s.memory_end
        ≡ (longest no_region (entries 0x100000)).base + (longest no_region (entries 0x100000)).len)
init_pmm-IsValid_example =
    init_pmm-IsValid (boot_memory 0x40 0x100000) 0x105123 0 (entries 0x100000) has_map
      IsRoomy-low_map

init_pmm_no_map_example :
    init_pmm (boot_memory 0x3 0x100000) 0x105123 0
    ≡ halted (panic (codes "Memory map not provided by bootloader!") ∷ [])
unfolding read_info read_u32 read_u8
init_pmm_no_map_example = init_pmm_no_map (boot_memory 0x3 0x100000) 0x105123 0 refl

pages_in_region_example :
    (s : Pmm) × (init_pmm (boot_memory 0x40 0x100000) 0x105123 0 ≡ returned [] s)
    × All (IsPageOf 0x105123 (longest no_region (entries 0x100000))) (run s (alloc ∷ alloc ∷ []))
unfolding consider
pages_in_region_example =
    pages_in_region (boot_memory 0x40 0x100000) 0x105123 0 (entries 0x100000) (alloc ∷ alloc ∷ [])
      has_map IsRoomy-low_map (omega arith)

first_page_outside_example :
    (s : Pmm) × (init_pmm (boot_memory 0x40 0x200000) 0x105123 0 ≡ returned [] s)
    × ((pmm_alloc_page s).0 ≡ align_up 0x105123)
    × ((pmm_alloc_page s).0 < (longest no_region (entries 0x200000)).base)
unfolding consider align_up
first_page_outside_example =
    first_page_outside (boot_memory 0x40 0x200000) 0x105123 0 (entries 0x200000) has_high_map
      IsRoomy-high_map (omega arith) (omega arith)
