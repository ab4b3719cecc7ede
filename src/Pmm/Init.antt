-- ===== src/Pmm/Init.antt =====
-- `init_pmm`: the search for the largest usable region, and the first values of the break.
pub mod Scan
pub mod Result
use micro_kernel.Base.{
  ℕ, zero, suc, ◌+◌, ◌*◌, ◌/◌, ◌%◌, ◌^◌, bit_and, Option, none, some, ◌==◌, ltb, leb, if◌then◌else◌,
  ◌&&◌, u32, codes,
}
use micro_kernel.Console.{Run, endless, pure, stop}
use micro_kernel.Pmm.{Pmm, page_size}
use micro_kernel.Pmm.Multiboot.{
  Memory, MemoryMap, MultibootInfo, read_info, read_map, mboot_flag_mmap,
}

pub record Region : Type 0 where
  pub base : ℕ
  pub len : ℕ

abbrev pub no_region : Region
no_region = record { base = 0; len = 0 }

-- The body of the loop: usable memory has the type 1.
unfoldable pub consider : Region → MemoryMap → Region
consider best e =
    if e.kind == 1 && ltb best.len e.len then record { base = e.base_addr; len = e.len } else best

-- `(u32)mmap + mmap->size + sizeof(u32)`.
unfoldable pub advance : ℕ → MemoryMap → ℕ
advance cursor e = u32 (cursor + e.size + 4)

-- The loop over the map. A round depends on the cursor alone, of which there are 2 ^ 32, so that
-- `none` after as many rounds is a loop without end.
unfoldable pub scan_map : ℕ → Memory → ℕ → ℕ → Region → Option Region
scan_map zero m cursor limit best = none
scan_map (suc fuel) m cursor limit best =
    let e = read_map m cursor in
    let rest = scan_map fuel m (advance cursor e) limit (consider best e) in
    if ltb cursor limit then rest else some best

abbrev pub max_rounds : ℕ
max_rounds = 2 ^ 32

unfoldable pub align_up : ℕ → ℕ
align_up a = if a % page_size == 0 then a else u32 ((a / page_size + 1) * page_size)

unfoldable pub set_bounds : ℕ → Region → Run Pmm
set_bounds kernel_end best =
    let brk = align_up kernel_end in
    let memory_end = u32 (u32 best.base + u32 best.len) in
    if leb memory_end brk
    then stop (codes "Not enough memory to start PMM!")
    else pure (record { memory_end = memory_end; current_break = brk; start_addr = brk })

-- `kernel_end` is the address of the linker's symbol `end`, and `mbd` the argument.
unfoldable pub init_pmm : Memory → ℕ → ℕ → Run Pmm
init_pmm m kernel_end mbd =
    let info = read_info m mbd in
    if bit_and info.flags mboot_flag_mmap == 0
    then stop (codes "Memory map not provided by bootloader!")
    else elim (scan_map max_rounds m info.mmap_addr (u32 (info.mmap_addr + info.mmap_length))
        no_region) [ none ↦ endless | some best ↦ set_bounds kernel_end best ]
