-- ===== src/Kernel/Loader/Tests.antt =====
-- Memory as a boot loader leaves it that follows the specification: a map of one entry of 16 MiB.
use micro_kernel.Base.{
  ℕ, ◌≡◌, ◌≢◌, refl, List, [], ◌∷◌, ◌++◌, arith, get_or, replicate, bit_and, codes, ◌%◌, ◌/◌,
}
use micro_kernel.Console.{Trace, halted, panic}
use micro_kernel.Pmm.Multiboot.{Memory, mboot_flag_mmap, read_u32, read_u8}
use micro_kernel.Interrupts.{initial}
use micro_kernel.Kernel.Main.{kernel_main}
use micro_kernel.Kernel.Boot.{yellow}
use micro_kernel.Kernel.Loader.{given, conforming_map_halts}

abbrev word : ℕ → List ℕ
word n = n % 256 ∷ n / 256 % 256 ∷ n / 65536 % 256 ∷ n / 16777216 % 256 ∷ []

abbrev conforming : Memory
conforming a =
    get_or
      (word 0x40
        ++ (replicate 40 0
            ++ (word 24
                ++ (word 52
                    ++ (word 20
                        ++ (word 0x100000
                            ++ (word 0 ++ (word 0x1000000 ++ (word 0 ++ word 1)))))))))
      a 0

map_given : bit_and (given conforming 0).flags mboot_flag_mmap ≢ 0
unfolding read_u32 read_u8
map_given = omega arith

no_symbols : (given conforming 0).symbols ≡ 0
unfolding read_u32 read_u8
no_symbols = refl

conforming_map_halts_example :
    (t : Trace) × (kernel_main conforming 0x105123 0x104000 0x100040 0 (replicate 11 0xCC) initial
      ≡ halted (t ++ panic (codes "Not enough memory to start PMM!") ∷ []))
    × (yellow t ≡ [])
conforming_map_halts_example =
    conforming_map_halts conforming 0x105123 0x104000 0x100040 0 (replicate 11 0xCC) initial
      map_given no_symbols
