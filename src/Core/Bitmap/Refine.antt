-- ===== src/Core/Bitmap/Refine.antt =====
-- The bitmap as a set of pages.
use micro_kernel.Base.{
  ℕ, ◌/◌, ◌%◌, ◌≤◌, ◌<◌, ◌≡◌, refl, ap, ◌∙◌, List, [], ◌∷◌, Bool, true, inl, inr, Bool-cases, ◌&&◌,
  ◌||◌, not, ◌==◌, leb, Option, some, ◌>>=◌, arith, get_or,
}
use micro_kernel.Core.Bitmap.{
  Bitmap, with_bit, without_bit, pmm_bitmap_set, pmm_bitmap_unset, pmm_bitmap_test,
}
use micro_kernel.Core.Bitmap.Change.{
  IsValid, Holds, change, set-change, unset-change, change-IsValid, bits_of-change, mark_bit,
  clear_bit, with_bit-lt, without_bit-lt,
}

pub data Op : Type 0 where
  mark : ℕ → Op
  clear : ℕ → Op

unfoldable pub step : Op → Bitmap → Option Bitmap
step (mark p) s = pmm_bitmap_set p s
step (clear p) s = pmm_bitmap_unset p s

unfoldable pub run : List Op → Bitmap → Option Bitmap
run [] s = some s
run (op ∷ ops) s = step op s >>= run ops

-- A set of pages, and what an operation makes of it.
abbrev pub after_op : Op → (ℕ → Bool) → ℕ → Bool
after_op (mark p) used q = (p == q) || used q
after_op (clear p) used q = not (p == q) && used q

abbrev pub after_all : List Op → (ℕ → Bool) → ℕ → Bool
after_all [] used = used
after_all (op ∷ ops) used = after_all ops (after_op op used)

-- What one operation does to a state that holds a set.
abbrev pub Steps : Op → Bitmap → (ℕ → Bool) → Type 0
Steps op s used =
    (s' : Bitmap) × (step op s ≡ some s')
    × IsValid s'
    × Holds s' (after_op op used)
    × (s'.total_pages ≡ s.total_pages)

outside :
    (s : Bitmap) (used used' : ℕ → Bool)
    → Holds s used
    → ((q : ℕ) → q < s.total_pages → used' q ≡ used q)
    → Holds s used'
outside s used used' holds agree q = elim (Bool-cases (leb s.total_pages q)) [
  | inl e ↦ holds q ∙ rw e refl
  | inr e ↦ holds q ∙ rw (e, agree q (ground arith)) refl
]

beyond : (s : Bitmap) (q : ℕ) → s.total_pages ≤ q → pmm_bitmap_test q s ≡ some true
unfolding pmm_bitmap_test
beyond s q h = ground arith

pub steps : (op : Op) (s : Bitmap) (used : ℕ → Bool) → IsValid s → Holds s used → Steps op s used
unfolding step
steps (mark p) s used h holds = elim (Bool-cases (leb s.total_pages p)) [
  | inl e ↦ (
    s,
    unfold pmm_bitmap_set in rw e refl,
    h,
    outside s used _ holds (λ q hq. ground arith),
    refl,
  )
  | inr e ↦
      let hp : p < s.total_pages = ground arith in
      let v = with_bit (get_or s.bytes (p / 8) 0) (p % 8) in
      (
        change s p v,
        set-change s p h hp,
        change-IsValid s p v h (with_bit-lt _ (p % 8)) hp,
        λ q. elim (Bool-cases (leb s.total_pages q)) [
          | inl e' ↦ rw e' (beyond (change s p v) q (ground arith))
          | inr e' ↦
              let hq : q < s.total_pages = ground arith in
              rw e' (bits_of-change s p v q h hp hq ∙ ap some (mark_bit p q s used h holds hq))
        ],
        refl,
      )
]
steps (clear p) s used h holds = elim (Bool-cases (leb s.total_pages p)) [
  | inl e ↦ (
    s,
    unfold pmm_bitmap_unset in rw e refl,
    h,
    outside s used _ holds (λ q hq. ground arith),
    refl,
  )
  | inr e ↦
      let hp : p < s.total_pages = ground arith in
      let v = without_bit (get_or s.bytes (p / 8) 0) (p % 8) in
      (
        change s p v,
        unset-change s p h hp,
        change-IsValid s p v h (without_bit-lt _ (p % 8)) hp,
        λ q. elim (Bool-cases (leb s.total_pages q)) [
          | inl e' ↦ rw e' (beyond (change s p v) q (ground arith))
          | inr e' ↦
              let hq : q < s.total_pages = ground arith in
              rw e' (bits_of-change s p v q h hp hq ∙ ap some (clear_bit p q s used h holds hq))
        ],
        refl,
      )
]

-- From a valid bitmap that holds a set of pages, every sequence of sets and clears runs without an
-- access out of bounds, ends in a valid bitmap with the same count, and the test then answers for
-- each page as the set that the operations make of the first: a page beyond the count is always
-- in use, and operations on it do nothing.
pub run_refines_set :
    (ops : List Op) (s : Bitmap) (used : ℕ → Bool)
    → IsValid s
    → Holds s used
    → (s' : Bitmap) × (run ops s ≡ some s')
      × IsValid s'
      × Holds s' (after_all ops used)
      × (s'.total_pages ≡ s.total_pages)
unfolding run
run_refines_set [] s used h holds = (s, refl, h, holds, refl)
run_refines_set (op ∷ ops) s used h holds =
    let one = steps op s used h holds in
    let rest = run_refines_set ops one.0 (after_op op used) one.2 one.3 in
    (rest.0, rw one.1 rest.1, rest.2, rest.3, rest.4 ∙ one.4)
