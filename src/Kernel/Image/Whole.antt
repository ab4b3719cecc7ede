-- ===== src/Kernel/Image/Whole.antt =====
-- Every section of the object files is in the image once, and no page overlaps it.
use micro_kernel.Base.{
  ℕ, ◌+◌, ◌≡◌, refl, ap, ap₂, sym, ◌∙◌, subst, List, [], ◌∷◌, ◌++◌, append_assoc, map,
  if◌then◌else◌, All,
}
use mathlib.Core.List.{Perm, perm_middle, map-append}
use mathlib.Core.List.Perm
use micro_kernel.Console.{returned}
use micro_kernel.Kernel.Image.{
  Name, Input, Placed, is, round_up, select, place, widest, output, link,
}
use micro_kernel.Kernel.Image.Order.{IsAligned, Between, link-Between, IsBehind, later-IsBehind}
use micro_kernel.Pmm.{Pmm}
use micro_kernel.Pmm.Multiboot.{Memory, MemoryMap}
use micro_kernel.Pmm.Init.{no_region, init_pmm}
use micro_kernel.Pmm.Init.Scan.{longest}
use micro_kernel.Pmm.Init.Result.{HasMap, IsRoomy, init_pmm-IsValid}
use micro_kernel.Pmm.Alloc.Pool.{Op}
use micro_kernel.Pmm.Alloc.Refine.{run, run-IsLater}

abbrev pub inputs : List Placed → List Input
inputs xs = map (λ x. x.input) xs

inputs-place : (xs : List Input) (dot : ℕ) → inputs (place xs dot).0 ≡ xs
unfolding place
inputs-place [] dot = refl
inputs-place (x ∷ xs) dot = ap (λ ys. x ∷ ys) (inputs-place xs (round_up dot x.align + x.size))

inputs-output : (xs : List Input) (dot : ℕ) → inputs (output xs dot).0 ≡ xs
unfolding output
inputs-output xs dot = inputs-place xs (round_up dot (widest xs))

abbrev grouped : List Input → List Input
grouped xs =
    select Name.multiboot xs
    ++ (select Name.text xs
        ++ (select Name.rodata xs ++ (select Name.initialized xs ++ select Name.bss xs)))

both :
    (xs ys : List Placed) (us vs : List Input)
    → inputs xs ≡ us
    → inputs ys ≡ vs
    → inputs (xs ++ ys) ≡ us ++ vs
both xs ys us vs h k = map-append (λ x. x.input) xs ys ∙ ap₂ (λ u v. u ++ v) h k

inputs-link : (xs : List Input) → inputs (link xs).0 ≡ grouped xs
unfolding link
inputs-link xs =
    both _ _ _ _ (inputs-output (select Name.multiboot xs ++ select Name.text xs) 0x00100000) (
      both _ _ _ _ (inputs-output (select Name.rodata xs) _) (
        both _ _ _ _ (inputs-output (select Name.initialized xs) _)
          (inputs-output (select Name.bss xs) _)))
    ∙ append_assoc (select Name.multiboot xs) (select Name.text xs) _

skip : (x : Input) (a p q : List Input) → Perm p (x ∷ q) → Perm (a ++ p) (x ∷ (a ++ q))
skip x a p q h = Perm.trans (Perm.append_left a h) (perm_middle a q)

-- A section goes to the group of its name.
put_in :
    (n : Name) (x : Input) (a b c d e xs : List Input)
    → Perm (a ++ (b ++ (c ++ (d ++ e)))) xs
    → Perm
        ((if is Name.multiboot n then x ∷ a else a)
          ++ ((if is Name.text n then x ∷ b else b)
              ++ ((if is Name.rodata n then x ∷ c else c)
                  ++ ((if is Name.initialized n then x ∷ d else d)
                      ++ (if is Name.bss n then x ∷ e else e)))))
        (x ∷ xs)
put_in Name.multiboot x a b c d e xs h = Perm.cons x h
put_in Name.text x a b c d e xs h =
    Perm.trans (skip x a _ (b ++ (c ++ (d ++ e))) (Perm.refl _)) (Perm.cons x h)
put_in Name.rodata x a b c d e xs h =
    Perm.trans (skip x a _ _ (skip x b _ (c ++ (d ++ e)) (Perm.refl _))) (Perm.cons x h)
put_in Name.initialized x a b c d e xs h =
    Perm.trans (skip x a _ _ (skip x b _ _ (skip x c _ (d ++ e) (Perm.refl _)))) (Perm.cons x h)
put_in Name.bss x a b c d e xs h =
    Perm.trans (skip x a _ _ (skip x b _ _ (skip x c _ _ (skip x d _ e (Perm.refl _)))))
      (Perm.cons x h)

grouped-perm : (xs : List Input) → Perm (grouped xs) xs
unfolding select
grouped-perm [] = Perm.refl []
grouped-perm (x ∷ xs) =
    put_in x.name x (select Name.multiboot xs) (select Name.text xs) (select Name.rodata xs)
      (select Name.initialized xs) (select Name.bss xs) xs (grouped-perm xs)

-- From the link to the allocator. For each list of sections with positive alignments: the image
-- holds each of them once; they stand one behind the other from 1 MiB up to the address of `end`,
-- each at a multiple of its alignment. Where the longest usable region of the map is roomy, seen
-- from that address, `init_pmm` returns, and whatever calls of the allocator follow, each answer is
-- the null pointer or a page that begins behind every section of the image.
pub no_overlap :
    (xs : List Input) (m : Memory) (mbd : ℕ) (es : List MemoryMap) (ops : List Op)
    → All IsAligned xs
    → HasMap m mbd es
    → IsRoomy (link xs).1 (longest no_region es)
    → Perm (inputs (link xs).0) xs
      × Between 0x00100000 (link xs).0 (link xs).1
      × (s : Pmm) × (init_pmm m (link xs).1 mbd ≡ returned [] s)
      × All (IsBehind (link xs).0) (run s ops)
no_overlap xs m mbd es ops aligned map roomy =
    let (s, returns, valid, low, _, _, end) = init_pmm-IsValid m (link xs).1 mbd es map roomy in
    let image = link-Between xs aligned in
    (
      subst (λ ys. Perm ys xs) (sym (inputs-link xs)) (grouped-perm xs),
      image,
      s,
      returns,
      later-IsBehind (link xs).0 (link xs).1 s.current_break s.memory_end _ image low
          (run-IsLater s ops valid),
    )
