-- ===== src/Core/Memory.antt =====
-- coresystem.c, part 10: `memset` and `memcpy`.
pub mod Overlap
mod Tests
use micro_kernel.Base.{
  ℕ, zero, suc, ◌+◌, ◌-◌, ◌%◌, ◌^◌, ◌≤◌, ◌<◌, ◌≡◌, ◌⊎◌, inl, inr, refl, ap, ◌==◌, ltb, leb, ◌&&◌,
  if◌then◌else◌, arith, u8, u32,
}
use micro_kernel.Pmm.Multiboot.{Memory, read_u8}

-- A store of one byte.
abbrev pub write_u8 : ℕ → ℕ → Memory → Memory
write_u8 a v m b = if b == u32 a then u8 v else m b

-- `while (len-- > 0)`.
unfoldable pub set_bytes : ℕ → ℕ → ℕ → Memory → Memory
set_bytes zero ptr val m = m
set_bytes (suc len) ptr val m = set_bytes len (ptr + 1) val (write_u8 ptr val m)

-- `val` is the argument's bits as an unsigned number. The result is the returned pointer and the
-- memory.
unfoldable pub memset : ℕ → ℕ → ℕ → Memory → ℕ × Memory
memset dest val len m = (dest, set_bytes len dest val m)

unfoldable pub copy_bytes : ℕ → ℕ → ℕ → Memory → Memory
copy_bytes zero d s m = m
copy_bytes (suc len) d s m = copy_bytes len (d + 1) (s + 1) (write_u8 d (read_u8 m s) m)

unfoldable pub memcpy : ℕ → ℕ → ℕ → Memory → ℕ × Memory
memcpy dest src len m = (dest, copy_bytes len dest src m)

set_bytes_lem :
    (len ptr val : ℕ) (m : Memory) (a : ℕ)
    → ptr + len ≤ 2 ^ 32
    → set_bytes len ptr val m a ≡ (if leb ptr a && ltb a (ptr + len) then u8 val else m a)
unfolding set_bytes
set_bytes_lem zero ptr val m a h = ground arith
set_bytes_lem (suc len) ptr val m a h =
    ground (arith, set_bytes_lem len (ptr + 1) val (write_u8 ptr val m) a)

-- `memset` returns its first argument; the bytes of the range hold the low byte of the value, and
-- all other bytes are as before, for a range below the top of the 32-bit addresses.
pub memset_lem :
    (dest val len : ℕ) (m : Memory) (a : ℕ)
    → dest + len ≤ 2 ^ 32
    → ((memset dest val len m).0 ≡ dest)
      × ((memset dest val len m).1 a ≡ (if leb dest a && ltb a (dest + len) then u8 val else m a))
unfolding memset
memset_lem dest val len m a h = (refl, set_bytes_lem len dest val m a h)

next_source : (d s : ℕ) (m : Memory) (a : ℕ) → d < a → m (s + 1 + (a - (d + 1))) ≡ m (s + (a - d))
next_source d s m a h = ap m (omega arith)

first_source : (d s : ℕ) (m : Memory) (a : ℕ) → d ≡ a → m (s + (a - d)) ≡ m s
first_source d s m a h = ap m (omega arith)

pub copy_bytes_lem :
    (len d s : ℕ) (m : Memory) (a : ℕ)
    → d + len ≤ 2 ^ 32
    → s + len ≤ 2 ^ 32
    → (d ≤ s) ⊎ (s + len ≤ d)
    → copy_bytes len d s m a ≡ (if leb d a && ltb a (d + len) then u8 (m (s + (a - d))) else m a)
unfolding copy_bytes read_u8
copy_bytes_lem zero d s m a hd hs apart = ground arith
copy_bytes_lem (suc len) d s m a hd hs apart = ground (
  arith,
  copy_bytes_lem len (d + 1) (s + 1) (write_u8 d (read_u8 m s) m) a,
  next_source d s m a,
  first_source d s m a,
)

-- `memcpy` returns its first argument; when the destination begins at or before the source, or
-- behind its end, the destination holds the bytes that the source had before, and all other
-- bytes are as they were, for ranges below the top of the 32-bit addresses.
pub memcpy_lem :
    (dest src len : ℕ) (m : Memory) (a : ℕ)
    → dest + len ≤ 2 ^ 32
    → src + len ≤ 2 ^ 32
    → (dest ≤ src) ⊎ (src + len ≤ dest)
    → ((memcpy dest src len m).0 ≡ dest)
      × ((memcpy dest src len m).1 a
          ≡ (if leb dest a && ltb a (dest + len) then u8 (m (src + (a - dest))) else m a))
unfolding memcpy
memcpy_lem dest src len m a hd hs apart = (refl, copy_bytes_lem len dest src m a hd hs apart)

smear :
    (len s : ℕ) (m : Memory) (a : ℕ)
    → s + 1 + len ≤ 2 ^ 32
    → copy_bytes len (s + 1) s m a
      ≡ (if leb (s + 1) a && ltb a (s + 1 + len) then u8 (m s) else m a)
unfolding copy_bytes read_u8
smear zero s m a h = ground arith
smear (suc len) s m a h = ground (arith, smear len (s + 1) (write_u8 (s + 1) (read_u8 m s) m) a)

-- When the destination begins one byte behind the source, the ranges overlap and the first byte of
-- the source is copied to the whole destination: `memcpy` is not `memmove`.
pub memcpy_smears :
    (src len : ℕ) (m : Memory) (a : ℕ)
    → src + 1 + len ≤ 2 ^ 32
    → (memcpy (src + 1) src len m).1 a
      ≡ (if leb (src + 1) a && ltb a (src + 1 + len) then u8 (m src) else m a)
unfolding memcpy
memcpy_smears src len m a h = smear len src m a h
