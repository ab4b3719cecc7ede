-- ===== src/Pmm.antt =====
-- kernel/pmm.c: the page allocator that the kernel starts with. `pmm_alloc_page` moves a break
-- through the largest usable region of the boot loader's memory map.
pub mod Multiboot
pub mod Alloc
pub mod Init
pub mod Region
pub mod Samples
mod Tests
use micro_kernel.Base.{ℕ}

-- The three static variables, each below 2 ^ 32.
pub record Pmm : Type 0 where
  pub memory_end : ℕ
  pub current_break : ℕ
  pub start_addr : ℕ

abbrev pub page_size : ℕ
page_size = 4096

abbrev pub initial : Pmm
initial = record { memory_end = 0; current_break = 0; start_addr = 0 }
