-- ===== src/Imperium/Paging/Identity.antt =====
-- The translation that the processor makes of the tables.
use micro_kernel.Base.{
  ℕ, ◌+◌, ◌*◌, ◌/◌, ◌%◌, ◌^◌, Option, none, some, get_or, ◌&&◌, ◌==◌, if◌then◌else◌, Bool,
}
use micro_kernel.Imperium.Paging.{Paging}

-- A present entry, and the address in it.
abbrev pub is_present : ℕ → Bool
is_present entry = entry % 2 == 1

abbrev pub address_in : ℕ → ℕ
address_in entry = entry / 2 ^ 12 * 2 ^ 12

-- The physical address of a linear one, by the manual: the directory's entry of its top ten bits
-- and the table's entry of the next ten. There is one table, at `table_addr`; `none` is a page
-- fault, or a table elsewhere.
abbrev pub translate : ℕ → Paging → ℕ → Option ℕ
translate table_addr s linear =
    let directory_entry = get_or s.page_directory (linear / 2 ^ 22) 0 in
    let table_entry = get_or s.first_page_table (linear / 2 ^ 12 % 1024) 0 in
    if is_present directory_entry
      && address_in directory_entry == table_addr
      && is_present table_entry
    then some (address_in table_entry + linear % 2 ^ 12)
    else none

-- The walk through the two entries.
abbrev walk : ℕ → ℕ → ℕ → ℕ → Option ℕ
walk table_addr directory_entry table_entry linear =
    if is_present directory_entry
      && address_in directory_entry == table_addr
      && is_present table_entry
    then some (address_in table_entry + linear % 2 ^ 12)
    else none
