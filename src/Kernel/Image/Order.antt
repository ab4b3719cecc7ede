-- ===== src/Kernel/Image/Order.antt =====
-- The image's sections stand in order, and no page overlaps them.
use micro_kernel.Base.{
  ℕ, ◌+◌, ◌%◌, ◌≤◌, ◌<◌, ◌≡◌, ◌⊎◌, inl, inr, Bool-cases, List, [], ◌∷◌, ◌++◌, arith, All,
  All-append,
}
use micro_kernel.Kernel.Image.{
  Name, Input, Placed, is, round_up, select, place, widest, output, link,
}
use micro_kernel.Pmm.Alloc.Refine.{IsLater}

round_up-le : (dot align : ℕ) → 0 < align → dot ≤ round_up dot align
unfolding round_up
round_up-le dot align h = grind arith

round_up-mod : (dot align : ℕ) → 0 < align → round_up dot align % align ≡ 0
unfolding round_up
round_up-mod dot align h = grind arith

abbrev pub IsAligned : Input → Type 0
IsAligned x = 0 < x.align

-- The sections stand one behind the other between two addresses, each at its alignment.
abbrev pub Between : ℕ → List Placed → ℕ → Type 0
Between low [] high = low ≤ high
Between low (x ∷ xs) high =
    (low ≤ x.start) × (x.start % x.input.align ≡ 0) × Between (x.start + x.input.size) xs high

Between-append :
    (low : ℕ) (xs : List Placed) (mid : ℕ) (ys : List Placed) (high : ℕ)
    → Between low xs mid
    → Between mid ys high
    → Between low (xs ++ ys) high
Between-append low [] mid [] high h k = omega arith
Between-append low [] mid (y ∷ ys) high h (k, a, rest) = (omega arith, a, rest)
Between-append low (x ∷ xs) mid ys high (h, a, rest) k =
    (h, a, Between-append (x.start + x.input.size) xs mid ys high rest k)

place-Between :
    (xs : List Input) (low dot : ℕ)
    → low ≤ dot
    → All IsAligned xs
    → Between low (place xs dot).0 (place xs dot).1
unfolding place
place-Between [] low dot h a = h
place-Between (x ∷ xs) low dot h (ax, a) = (
  omega (arith, round_up-le dot x.align ax),
  round_up-mod dot x.align ax,
  place-Between xs _ _ (omega arith) a,
)

widest_pos : (xs : List Input) → 0 < widest xs
widest_pos [] = omega arith
widest_pos (x ∷ xs) = omega (arith, widest_pos xs)

output-Between :
    (xs : List Input) (dot : ℕ) → All IsAligned xs → Between dot (output xs dot).0 (output xs dot).1
unfolding output
output-Between xs dot a = place-Between xs dot _ (round_up-le dot (widest xs) (widest_pos xs)) a

select-IsAligned : (n : Name) (xs : List Input) → All IsAligned xs → All IsAligned (select n xs)
unfolding select
select-IsAligned n [] a = tt
select-IsAligned n (x ∷ xs) (ax, a) = elim (Bool-cases (is n x.name)) [
  | inl e ↦ rw e (ax, select-IsAligned n xs a)
  | inr e ↦ rw e (select-IsAligned n xs a)
]

pub link-Between : (xs : List Input) → All IsAligned xs → Between 0x00100000 (link xs).0 (link xs).1
unfolding link
link-Between xs a =
    let picked = λ (n : Name). select-IsAligned n xs a in
    let one =
      output-Between (select Name.multiboot xs ++ select Name.text xs) 0x00100000
        (All-append _ _ _ (picked Name.multiboot) (picked Name.text)) in
    Between-append _ _ _ _ _ one (
      Between-append _ _ _ _ _ (output-Between (select Name.rodata xs) _ (picked Name.rodata)) (
        Between-append _ _ _ _ _
          (output-Between (select Name.initialized xs) _ (picked Name.initialized))
          (output-Between (select Name.bss xs) _ (picked Name.bss))))

Between-le : (low : ℕ) (xs : List Placed) (high : ℕ) → Between low xs high → low ≤ high
Between-le low [] high h = h
Between-le low (x ∷ xs) high (h, _, rest) =
    omega (arith, Between-le (x.start + x.input.size) xs high rest)

-- A page that begins behind the image.
abbrev pub IsBehind : List Placed → ℕ → Type 0
IsBehind xs p = (p ≡ 0) ⊎ All (λ x. x.start + x.input.size ≤ p) xs

All-le :
    (low : ℕ) (xs : List Placed) (high p : ℕ)
    → Between low xs high
    → high ≤ p
    → All (λ x. x.start + x.input.size ≤ p) xs
All-le low [] high p h k = tt
All-le low (x ∷ xs) high p (h, _, rest) k = (
  omega (arith, Between-le (x.start + x.input.size) xs high rest),
  All-le (x.start + x.input.size) xs high p rest k,
)

pub later-IsBehind :
    (xs : List Placed) (high low end : ℕ) (ps : List ℕ)
    → Between 0x00100000 xs high
    → high ≤ low
    → All (IsLater low end) ps
    → All (IsBehind xs) ps
later-IsBehind xs high low end [] b h a = tt
later-IsBehind xs high low end (p ∷ ps) b h (inl none, rest) =
    (inl none, later-IsBehind xs high low end ps b h rest)
later-IsBehind xs high low end (p ∷ ps) b h (inr (from, _, _), rest) =
    (inr (All-le _ xs high p b (omega arith)), later-IsBehind xs high low end ps b h rest)
