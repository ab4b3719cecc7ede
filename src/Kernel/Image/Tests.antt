-- ===== src/Kernel/Image/Tests.antt =====
-- A link of five sections.
use micro_kernel.Base.{ℕ, ◌≡◌, refl, List, [], ◌∷◌, arith, All, map}
use mathlib.Core.List.{Perm}
use micro_kernel.Console.{returned}
use micro_kernel.Kernel.Image.{Name, Input, round_up, select, place, output, link}
use micro_kernel.Kernel.Image.Order.{Between, IsBehind}
use micro_kernel.Kernel.Image.Whole.{inputs, no_overlap}
use micro_kernel.Pmm.{Pmm}
use micro_kernel.Pmm.Init.{init_pmm, no_region}
use micro_kernel.Pmm.Init.Scan.{longest}
use micro_kernel.Pmm.Init.Result.{IsRoomy}
use micro_kernel.Pmm.Alloc.Pool.{alloc}
use micro_kernel.Pmm.Alloc.Refine.{run}
use micro_kernel.Pmm.Samples.{boot_memory, entries, has_map, IsRoomy-low_map}

abbrev part : Name → ℕ → ℕ → Input
part name size align = record { name = name; size = size; align = align }

-- The code is before the header on the command line, and comes behind it in the image.
abbrev objects : List Input
objects =
    part Name.text 0x3000 16
    ∷ part Name.multiboot 12 4
    ∷ part Name.rodata 0x500 32
    ∷ part Name.bss 0x1B03 32
    ∷ part Name.initialized 0x100 32
    ∷ []

abbrev starts : List ℕ
starts = 0x100000 ∷ 0x100010 ∷ 0x103020 ∷ 0x103520 ∷ 0x103620 ∷ []

link_end : (link objects).1 ≡ 0x105123
unfolding link output place select round_up
link_end = refl

link-starts : map (λ x. x.start) (link objects).0 ≡ starts
unfolding link output place select round_up
link-starts = refl

roomy : IsRoomy (link objects).1 (longest no_region (entries 0x100000))
unfolding link output place select round_up
roomy = IsRoomy-low_map

no_overlap_example :
    Perm (inputs (link objects).0) objects
    × Between 0x00100000 (link objects).0 (link objects).1
    × (s : Pmm) × (init_pmm (boot_memory 0x40 0x100000) (link objects).1 0 ≡ returned [] s)
    × All (IsBehind (link objects).0) (run s (alloc ∷ alloc ∷ []))
no_overlap_example =
    no_overlap objects (boot_memory 0x40 0x100000) 0 (entries 0x100000) (alloc ∷ alloc ∷ [])
      (omega arith) has_map roomy
