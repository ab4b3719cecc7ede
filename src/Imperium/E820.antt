-- ===== src/Imperium/E820.antt =====
-- main.core.asm, part 9: the memory map from the BIOS. The BIOS is a parameter: what it replies to
-- a continuation value in EBX.
pub mod Map
use micro_kernel.Base.{
  ℕ, zero, suc, ◌+◌, List, Bool, true, false, ◌==◌, ◌||◌, not, if◌then◌else◌, set, Bytes,
}

-- The carry flag and the registers after `int 0x15`, and the entry of 20 bytes that is written at
-- EDI.
pub record Reply : Type 0 where
  pub carry : Bool
  pub eax : ℕ
  pub ebx : ℕ
  pub entry : Bytes

abbrev pub smap : ℕ
smap = 0x534D4150

abbrev pub e820_max_entries : ℕ
e820_max_entries = 128

-- The array `e820_map` by its entries, the count, and what EAX holds before `popa`.
pub record Detected : Type 0 where
  pub map : List Bytes
  pub count : ℕ
  pub status : ℕ

-- The loop, with the entries that the array has left. A reply of failure may have written its
-- entry, too.
unfoldable pub detect_loop : ℕ → (ℕ → Reply) → ℕ → ℕ → List Bytes → Detected
detect_loop zero bios ebx count map = record { map = map; count = count; status = 1 }
detect_loop (suc left) bios ebx count map =
    let reply = bios ebx in
    let map' = set map count reply.entry in
    let rest = detect_loop left bios reply.ebx (count + 1) map' in
    if reply.carry || not (reply.eax == smap)
    then record { map = map'; count = count; status = 0 }
    else if reply.ebx == 0
    then record { map = map'; count = count; status = 1 }
    else rest

-- `eax` is the register before the call; `popa` gives it back. The result is EAX, and the map.
unfoldable pub detect_memory : (ℕ → Reply) → ℕ → List Bytes → ℕ × Detected
detect_memory bios eax map = (eax, detect_loop e820_max_entries bios 0 0 map)
