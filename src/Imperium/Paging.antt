-- ===== src/Imperium/Paging.antt =====
-- main.core.asm, part 10: the page directory and the first page table.
pub mod Identity
use micro_kernel.Base.{ℕ, zero, suc, ◌+◌, ◌*◌, ◌^◌, List, Option, some, ◌>>=◌, bit_or, store, u32}
use micro_kernel.Imperium.Repeat.{rep_stos}

-- The two tables as double words, and the two control registers.
pub record Paging : Type 0 where
  pub page_directory : List ℕ
  pub first_page_table : List ℕ
  pub cr0 : ℕ
  pub cr3 : ℕ

abbrev pub page_flag_present : ℕ
page_flag_present = 2 ^ 0

abbrev pub page_flag_readwrite : ℕ
page_flag_readwrite = 2 ^ 1

-- The loop that fills the table, with the rounds that are left in ECX.
unfoldable pub map_page_loop : ℕ → ℕ → ℕ → List ℕ → Option (List ℕ)
map_page_loop zero edi eax table = some table
map_page_loop (suc ecx) edi eax table =
    store table edi eax >>= map_page_loop ecx (edi + 1) (u32 (eax + 4096))

-- `directory_addr` and `table_addr` are the addresses of the two tables. `none` is a store outside
-- of them.
unfoldable pub paging_install : ℕ → ℕ → Paging → Option Paging
paging_install directory_addr table_addr s = do
  directory ← rep_stos 1024 0 0 s.page_directory
  cleared ← rep_stos 1024 0 0 s.first_page_table
  table ← map_page_loop 1024 0 (bit_or page_flag_present page_flag_readwrite) cleared
  directory' ← store directory 0 (bit_or table_addr (bit_or page_flag_present page_flag_readwrite))
  some (record {
    page_directory = directory';
    first_page_table = table;
    cr0 = bit_or s.cr0 0x80000000;
    cr3 = directory_addr;
  })
