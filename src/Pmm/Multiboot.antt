-- ===== src/Pmm/Multiboot.antt =====
-- kernel/multiboot.h: the two packed structures, read from memory byte by byte.
use micro_kernel.Base.{ℕ, ◌+◌, ◌*◌, ◌^◌, ◌<◌, arith, u8, u32}

-- The byte at each 32-bit address.
abbrev pub Memory : Type 0
Memory = ℕ → ℕ

unfoldable pub read_u8 : Memory → ℕ → ℕ
read_u8 m a = u8 (m (u32 a))

unfoldable pub read_u32 : Memory → ℕ → ℕ
read_u32 m a =
    read_u8 m a
    + 2 ^ 8 * read_u8 m (a + 1)
    + 2 ^ 16 * read_u8 m (a + 2)
    + 2 ^ 24 * read_u8 m (a + 3)

unfoldable pub read_u64 : Memory → ℕ → ℕ
read_u64 m a = read_u32 m a + 2 ^ 32 * read_u32 m (a + 4)

-- The fields that the source declares, at their packed offsets.
pub record MultibootInfo : Type 0 where
  pub flags : ℕ
  pub mem_lower : ℕ
  pub mem_upper : ℕ
  pub boot_device : ℕ
  pub cmdline : ℕ
  pub mods_count : ℕ
  pub mods_addr : ℕ
  pub syms_0 : ℕ
  pub syms_1 : ℕ
  pub syms_2 : ℕ
  pub mmap_length : ℕ
  pub mmap_addr : ℕ

unfoldable pub read_info : Memory → ℕ → MultibootInfo
read_info m p = record {
  flags = read_u32 m p;
  mem_lower = read_u32 m (p + 4);
  mem_upper = read_u32 m (p + 8);
  boot_device = read_u32 m (p + 12);
  cmdline = read_u32 m (p + 16);
  mods_count = read_u32 m (p + 20);
  mods_addr = read_u32 m (p + 24);
  syms_0 = read_u32 m (p + 28);
  syms_1 = read_u32 m (p + 32);
  syms_2 = read_u32 m (p + 36);
  mmap_length = read_u32 m (p + 40);
  mmap_addr = read_u32 m (p + 44);
}

pub record MemoryMap : Type 0 where
  pub size : ℕ
  pub base_addr : ℕ
  pub len : ℕ
  pub kind : ℕ

unfoldable pub read_map : Memory → ℕ → MemoryMap
read_map m p = record {
  size = read_u32 m p;
  base_addr = read_u64 m (p + 4);
  len = read_u64 m (p + 12);
  kind = read_u32 m (p + 20);
}

abbrev pub mboot_flag_mmap : ℕ
mboot_flag_mmap = 0x40

pub read_u32-lt : (m : Memory) (a : ℕ) → read_u32 m a < 2 ^ 32
unfolding read_u32 read_u8
read_u32-lt m a = omega arith

pub read_u64-lt : (m : Memory) (a : ℕ) → read_u64 m a < 2 ^ 64
unfolding read_u64
read_u64-lt m a = omega (arith, read_u32-lt m a, read_u32-lt m (a + 4))
