-- ===== src/Core/Memory/Overlap.antt =====
-- `memcpy` on any two ranges, with their overlap.
use micro_kernel.Base.{
  ℕ, zero, suc, ◌+◌, ◌-◌, ◌%◌, ◌^◌, ◌≤◌, ◌<◌, ◌≡◌, ◌⊎◌, inl, inr, refl, ap, ◌∙◌, ◌==◌, ltb, leb,
  ◌&&◌, if◌then◌else◌, true, false, Bool-cases, arith, u8, u32,
}
use native.Mathlib.Nat.{suc-mod, mod_self, mod-lt, zero-mod, mod-eq_of_lt}
use micro_kernel.Pmm.Multiboot.{Memory, read_u8}
use micro_kernel.Core.Memory.{write_u8, copy_bytes, memcpy, copy_bytes_lem}

-- The next offset in a period, by its two cases.
next_offset :
    (j k : ℕ)
    → 0 < k
    → ((suc (j % k) ≡ k) × (suc j % k ≡ 0)) ⊎ ((suc (j % k) < k) × (suc j % k ≡ suc (j % k)))
next_offset j k h = elim (Bool-cases (suc (j % k) == k)) [
  | inl e ↦
      let last : suc (j % k) ≡ k = ground arith in
      inl (last, suc-mod j k ∙ ap (λ i. i % k) last ∙ mod_self k)
  | inr e ↦
      let inside : suc (j % k) < k = ground (arith, mod-lt j h) in
      inr (inside, suc-mod j k ∙ mod-eq_of_lt inside)
]

-- The byte that a later round finds is the one that the period asks for.
later_byte :
    (j s k : ℕ) (m : Memory)
    → 0 < k
    → s + k < 2 ^ 32
    → u8 (write_u8 (s + k) (read_u8 m s) m (s + 1 + j % k)) ≡ u8 (m (s + suc j % k))
unfolding read_u8
later_byte j s k m h below = elim (next_offset j k h) [
  | inl (last, first) ↦
      let here : (s + 1 + j % k == u32 (s + k)) ≡ true = ground arith in
      let low : u32 s ≡ s = omega arith in
      let start : s + suc j % k ≡ s = omega arith in rw (here, low, start) (omega arith)
  | inr (inside, next) ↦
      let elsewhere : (s + 1 + j % k == u32 (s + k)) ≡ false = ground arith in
      let same : s + 1 + j % k ≡ s + suc j % k = omega arith in rw (elsewhere, same) refl
]

-- What one round writes, where it writes and elsewhere.
first_byte :
    (s k : ℕ) (m : Memory) (a : ℕ)
    → s + k < 2 ^ 32
    → a ≡ s + k
    → write_u8 (s + k) (read_u8 m s) m a ≡ u8 (m (s + (a - (s + k)) % k))
unfolding read_u8
first_byte s k m a below here =
    let written : (a == u32 (s + k)) ≡ true = ground arith in
    let low : u32 s ≡ s = omega arith in
    let none_left : a - (s + k) ≡ 0 = omega arith in
    let start : s + 0 ≡ s = omega arith in
    rw (written, low, none_left, zero-mod k, start) (omega arith)

other_byte :
    (s k : ℕ) (m : Memory) (a : ℕ)
    → s + k < 2 ^ 32
    → (a == s + k) ≡ false
    → write_u8 (s + k) (read_u8 m s) m a ≡ m a
other_byte s k m a below there =
    let kept : (a == u32 (s + k)) ≡ false = ground arith in rw kept refl

next_byte :
    (s k : ℕ) (m : Memory) (a : ℕ)
    → 0 < k
    → s + k < 2 ^ 32
    → s + k < a
    → u8 (write_u8 (s + k) (read_u8 m s) m (s + 1 + (a - (s + 1 + k)) % k))
      ≡ u8 (m (s + (a - (s + k)) % k))
next_byte s k m a h below behind =
    let one_more : suc (a - (s + 1 + k)) ≡ a - (s + k) = omega arith in
    later_byte (a - (s + 1 + k)) s k m h below ∙ ap (λ i. u8 (m (s + i % k))) one_more

copy_periodic :
    (len s k : ℕ) (m : Memory) (a : ℕ)
    → 0 < k
    → s + k + len ≤ 2 ^ 32
    → copy_bytes len (s + k) s m a
      ≡ (if leb (s + k) a && ltb a (s + k + len) then u8 (m (s + (a - (s + k)) % k)) else m a)
unfolding copy_bytes
copy_periodic zero s k m a h below = ground arith
copy_periodic (suc len) s k m a h below =
    let m' = write_u8 (s + k) (read_u8 m s) m in
    let next : s + k + 1 ≡ s + 1 + k = omega arith in
    ap (λ d. copy_bytes len d (s + 1) m' a) next
    ∙ copy_periodic len (s + 1) k m' a h (omega arith)
    ∙ elim (Bool-cases (a == s + k)) [
      | inl e ↦
          let before : leb (s + 1 + k) a ≡ false = ground arith in
          let inside : (leb (s + k) a && ltb a (s + k + suc len)) ≡ true = ground arith in
          rw (before, inside) (first_byte s k m a (omega arith) (ground arith))
      | inr e ↦ elim (Bool-cases (leb (s + 1 + k) a && ltb a (s + 1 + k + len))) [
        | inl e' ↦
            let inside : (leb (s + k) a && ltb a (s + k + suc len)) ≡ true = ground arith in
            rw (e', inside) (next_byte s k m a h (omega arith) (ground arith))
        | inr e' ↦
            let outside : (leb (s + k) a && ltb a (s + k + suc len)) ≡ false = ground arith in
            rw (e', outside) (other_byte s k m a (omega arith) e)
      ]
    ]

-- `memcpy` returns its first argument, and for all ranges below the top of the 32-bit addresses,
-- each byte of the destination is the byte that the source had before, at the same offset, if the
-- destination begins at or before the source. If it begins behind, then the offset is taken modulo
-- the distance of the two: an overlap repeats the bytes between them. All other bytes are as they
-- were.
pub memcpy_any :
    (dest src len : ℕ) (m : Memory) (a : ℕ)
    → dest + len ≤ 2 ^ 32
    → src + len ≤ 2 ^ 32
    → ((memcpy dest src len m).0 ≡ dest)
      × ((memcpy dest src len m).1 a ≡ (
          if leb dest a && ltb a (dest + len)
          then u8 (m (src + (if leb dest src then a - dest else (a - dest) % (dest - src))))
          else m a))
unfolding memcpy
memcpy_any dest src len m a hd hs = elim (Bool-cases (leb dest src)) [
  | inl e ↦ (refl, rw e (copy_bytes_lem len dest src m a hd hs (inl (ground arith))))
  | inr e ↦
      let apart : src + (dest - src) ≡ dest = ground arith in
      let periodic = copy_periodic len src (dest - src) m a (ground arith) (ground arith) in
      (refl, rw e (rw apart at periodic))
]
