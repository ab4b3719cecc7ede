-- ===== src/Imperium/Segments/Flat.antt =====
-- What the processor reads from the descriptors.
use micro_kernel.Base.{
  ℕ, ◌+◌, ◌*◌, ◌/◌, ◌%◌, ◌^◌, ◌<◌, ◌≡◌, refl, ap, Option, none, some, ◌>>=◌, ltb, if◌then◌else◌,
  ◌==◌, Bytes, get_or, arith, le→ltb, le→ltb,
}
use micro_kernel.Imperium.Segments.{Segments, descriptor_of, gdt_install}

-- The fields of a descriptor, by the manual; the limit counts pages where bit 55 is set.
abbrev pub base_of : Bytes → ℕ
base_of d = get_or d 2 0 + 2 ^ 8 * get_or d 3 0 + 2 ^ 16 * get_or d 4 0 + 2 ^ 24 * get_or d 7 0

abbrev pub limit_of : Bytes → ℕ
limit_of d =
    let limit = get_or d 0 0 + 2 ^ 8 * get_or d 1 0 + 2 ^ 16 * (get_or d 6 0 % 16) in
    if get_or d 6 0 / 2 ^ 7 == 1 then limit * 2 ^ 12 + 0xFFF else limit

abbrev pub access_of : Bytes → ℕ
access_of d = get_or d 5 0

-- The linear address of an offset in a segment.
abbrev pub linear : ℕ → ℕ → Segments → Option ℕ
linear selector offset s = do
  d ← descriptor_of selector s
  if ltb (limit_of d) offset then none else some (base_of d + offset)

-- Present segments of ring 0: code that can be read, and data that can be written.
abbrev pub IsFlat : ℕ → ℕ → Segments → Type 0
IsFlat selector access s =
    ((offset : ℕ) → offset < 2 ^ 32 → linear selector offset s ≡ some offset)
    × ((d : Bytes) × (descriptor_of selector s ≡ some d) × (access_of d ≡ access))

-- From any state `gdt_install` goes through without a fault; each 32-bit offset in CS and in the
-- five data segments is its own linear address, CS is readable code and the others are writable
-- data, all present and of ring 0.
pub segments-IsFlat :
    (s : Segments)
    → (s' : Segments) × (gdt_install s ≡ some s')
      × IsFlat s'.cs 0x9A s'
      × IsFlat s'.ds 0x92 s'
      × (s'.es ≡ s'.ds)
      × (s'.fs ≡ s'.ds)
      × (s'.gs ≡ s'.ds)
      × (s'.ss ≡ s'.ds)
unfolding gdt_install
segments-IsFlat s = (
  _,
  refl,
  (
    λ offset h. rw (le→ltb 0xFFFFFFFF offset (omega arith)) (ap some (omega arith)),
    (_, refl, refl),
  ),
  (
    λ offset h. rw (le→ltb 0xFFFFFFFF offset (omega arith)) (ap some (omega arith)),
    (_, refl, refl),
  ),
  refl,
  refl,
  refl,
  refl,
)
