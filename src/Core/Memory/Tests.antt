-- ===== src/Core/Memory/Tests.antt =====
-- The memory functions at ranges that meet the theorems' hypotheses.
use micro_kernel.Base.{◌≡◌, arith, u8}
use micro_kernel.Pmm.Multiboot.{Memory}
use micro_kernel.Core.Memory.{memcpy}
use micro_kernel.Core.Memory.Overlap.{memcpy_any}

-- The low byte of the address.
abbrev pattern : Memory
pattern a = u8 a

-- An overlap: the destination begins three bytes behind the source.
memcpy_any_example :
    ((memcpy 0x1000 0x0FFD 16 pattern).0 ≡ 0x1000)
    × ((memcpy 0x1000 0x0FFD 16 pattern).1 0x1007 ≡ 0xFE)
memcpy_any_example = memcpy_any 0x1000 0x0FFD 16 pattern 0x1007 (omega arith) (omega arith)
