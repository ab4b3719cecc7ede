-- ===== src/Pmm/Samples.antt =====
-- A small boot memory for the tests.
use micro_kernel.Base.{ℕ, ◌/◌, ◌%◌, refl, List, [], ◌∷◌, ◌++◌, arith, get_or}
use micro_kernel.Pmm.Multiboot.{Memory, MemoryMap, read_info, read_map, read_u32, read_u64, read_u8}
use micro_kernel.Pmm.Init.{no_region, align_up, consider}
use micro_kernel.Pmm.Init.Scan.{longest}
use micro_kernel.Pmm.Init.Result.{HasMap, IsRoomy}

abbrev word : ℕ → List ℕ
word n = n % 256 ∷ n / 256 % 256 ∷ n / 65536 % 256 ∷ n / 16777216 % 256 ∷ []

abbrev zeros : List ℕ
zeros = word 0 ++ word 0 ++ word 0

-- The boot information at 0, and a map with two entries at 48; `base` is that of the second.
abbrev image : ℕ → ℕ → List ℕ
image flags base =
    word flags
    ++ zeros
    ++ zeros
    ++ zeros
    ++ word 48
    ++ word 48
    ++ (word 20 ++ word 0 ++ word 0 ++ word 0x9f000 ++ word 0 ++ word 1)
    ++ (word 20 ++ word base ++ word 0 ++ word 0x700000 ++ word 0 ++ word 1)

abbrev pub boot_memory : ℕ → ℕ → Memory
boot_memory flags base a = get_or (image flags base) a 0

abbrev low_entry : MemoryMap
low_entry = record { size = 20; base_addr = 0; len = 0x9f000; kind = 1 }

abbrev high_entry : ℕ → MemoryMap
high_entry base = record { size = 20; base_addr = base; len = 0x700000; kind = 1 }

abbrev pub entries : ℕ → List MemoryMap
entries base = low_entry ∷ high_entry base ∷ []

pub has_map : HasMap (boot_memory 0x40 0x100000) 0 (entries 0x100000)
unfolding read_info read_map read_u64 read_u32 read_u8
has_map = record {
  flag = omega arith;
  laid = (omega arith, refl, omega arith, (omega arith, refl, omega arith, omega arith));
}

pub has_high_map : HasMap (boot_memory 0x40 0x200000) 0 (entries 0x200000)
unfolding read_info read_map read_u64 read_u32 read_u8
has_high_map = record {
  flag = omega arith;
  laid = (omega arith, refl, omega arith, (omega arith, refl, omega arith, omega arith));
}

pub IsRoomy-low_map : IsRoomy 0x105123 (longest no_region (entries 0x100000))
unfolding consider align_up
IsRoomy-low_map = omega arith

pub IsRoomy-high_map : IsRoomy 0x105123 (longest no_region (entries 0x200000))
unfolding consider align_up
IsRoomy-high_map = omega arith
