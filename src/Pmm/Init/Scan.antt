-- ===== src/Pmm/Init/Scan.antt =====
-- The loop over the memory map finds the longest usable region, and it ends.
use micro_kernel.Base.{
  ℕ, zero, suc, ◌+◌, ◌*◌, ◌^◌, ◌≤◌, ◌<◌, ◌≡◌, ◌⊎◌, inl, refl, List, [], ◌∷◌, some, arith, length,
  All,
}
use micro_kernel.Pmm.Multiboot.{Memory, MemoryMap, read_map}
use micro_kernel.Pmm.Init.{Region, no_region, consider, advance, scan_map, max_rounds}

-- The entries from `cursor` on are laid out one behind the other up to `limit`, and the step behind
-- none of them leaves the 32-bit addresses.
abbrev pub IsLaid : Memory → ℕ → ℕ → List MemoryMap → Type 0
IsLaid m cursor limit [] = limit ≤ cursor
IsLaid m cursor limit (e ∷ es) =
    (cursor < limit)
    × (read_map m cursor ≡ e)
    × (cursor + e.size + 4 < 2 ^ 32)
    × IsLaid m (cursor + e.size + 4) limit es

-- The loop's result by recursion on the entries.
abbrev pub longest : Region → List MemoryMap → Region
longest best [] = best
longest best (e ∷ es) = longest (consider best e) es

pub scan_map-longest :
    (fuel : ℕ) (m : Memory) (cursor limit : ℕ) (best : Region) (es : List MemoryMap)
    → IsLaid m cursor limit es
    → length es < fuel
    → scan_map fuel m cursor limit best ≡ some (longest best es)
unfolding scan_map advance
scan_map-longest zero m cursor limit best es laid enough = absurd (omega arith)
scan_map-longest (suc fuel) m cursor limit best [] laid enough = ground arith
scan_map-longest (suc fuel) m cursor limit best (e ∷ es) (more, entry, fits, laid) enough =
    ground (arith, scan_map-longest fuel m (cursor + e.size + 4) limit (consider best e) es laid)

-- Every entry takes four bytes at least, so the rounds are fewer than the cursors.
pub length_laid :
    (m : Memory) (cursor limit : ℕ) (es : List MemoryMap)
    → IsLaid m cursor limit es
    → limit < 2 ^ 32
    → cursor < 2 ^ 32
    → 4 * length es + cursor ≤ 2 ^ 32
length_laid m cursor limit [] laid h k = omega arith
length_laid m cursor limit (e ∷ es) (more, entry, fits, laid) h k =
    omega (arith, length_laid m (cursor + e.size + 4) limit es laid h fits)

-- On a map that is laid out the rounds suffice.
pub scan_map_ends :
    (m : Memory) (cursor limit : ℕ) (es : List MemoryMap)
    → IsLaid m cursor limit es
    → limit < 2 ^ 32
    → cursor < 2 ^ 32
    → scan_map max_rounds m cursor limit no_region ≡ some (longest no_region es)
scan_map_ends m cursor limit es laid h k =
    scan_map-longest max_rounds m cursor limit no_region es laid
      (omega (arith, length_laid m cursor limit es laid h k))

-- An entry is usable, and `r` is its region.
abbrev pub IsRegionOf : Region → MemoryMap → Type 0
IsRegionOf r e = (e.kind ≡ 1) × (r.base ≡ e.base_addr) × (r.len ≡ e.len)

abbrev pub Any : (MemoryMap → Type 0) → List MemoryMap → Type 0
Any P [] = ⊥
Any P (e ∷ es) = P e ⊎ Any P es

abbrev pub FitsIn : Region → MemoryMap → Type 0
FitsIn r e = (e.kind ≡ 1) → e.len ≤ r.len

-- The region that is kept is at least as long as every usable entry.
longest_bound :
    (best : Region) (es : List MemoryMap)
    → (best.len ≤ (longest best es).len) × All (FitsIn (longest best es)) es
unfolding consider
longest_bound best [] = (omega arith, tt)
longest_bound best (e ∷ es) =
    let (grows, fits) = longest_bound (consider best e) es in (ground arith, (ground arith, fits))

longest_source :
    (best : Region) (es : List MemoryMap)
    → (longest best es ≡ best) ⊎ Any (IsRegionOf (longest best es)) es
unfolding consider
longest_source best [] = inl refl
longest_source best (e ∷ es) = ground (arith, longest_source (consider best e) es)

-- What `r` has to be for the entries of a map.
abbrev pub IsLongest : Region → List MemoryMap → Type 0
IsLongest r es = All (FitsIn r) es × ((r ≡ no_region) ⊎ Any (IsRegionOf r) es)

pub longest-IsLongest : (es : List MemoryMap) → IsLongest (longest no_region es) es
longest-IsLongest es = ((longest_bound no_region es).1, longest_source no_region es)

-- On a map whose entries are laid out up to `limit`, the loop ends, and the region that it keeps is
-- at least as long as every usable entry and is the region of a usable entry, unless it is the
-- empty region of the start.
pub scan_map-IsLongest :
    (m : Memory) (cursor limit : ℕ) (es : List MemoryMap)
    → IsLaid m cursor limit es
    → limit < 2 ^ 32
    → cursor < 2 ^ 32
    → (r : Region) × (scan_map max_rounds m cursor limit no_region ≡ some r) × IsLongest r es
scan_map-IsLongest m cursor limit es laid h k =
    (longest no_region es, scan_map_ends m cursor limit es laid h k, longest-IsLongest es)
