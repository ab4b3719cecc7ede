-- ===== src/Strings/Utoa/Reverse.antt =====
-- The swaps from both ends reverse what stands between them.
use micro_kernel.Base.{
  ℕ, zero, suc, ◌+◌, ◌-◌, ◌*◌, ◌≤◌, ◌≡◌, sym, ap, ◌∙◌, [], ◌∷◌, ◌++◌, append_assoc, reverse, some,
  arith, lt→ltb, ◌<◌, length, get_elem?, store, get_elem?-middle, store-middle, length-append,
  Bytes,
}
use mathlib.Core.List.{reverse-append, reverse-cons}
use micro_kernel.Strings.Utoa.{swap_ends}

-- A list from both ends.
pub data Ends : Bytes → Type 0 where
  nil : Ends []
  single : (a : ℕ) → Ends (a ∷ [])
  both : (a : ℕ) (mid : Bytes) (b : ℕ) → Ends (a ∷ (mid ++ b ∷ []))

Ends-cons : (a : ℕ) {xs : Bytes} → Ends xs → Ends (a ∷ xs)
Ends-cons a nil = single a
Ends-cons a (single b) = both a [] b
Ends-cons a (both b mid c) = both a (b ∷ mid) c

Ends-of : (xs : Bytes) → Ends xs
Ends-of [] = nil
Ends-of (a ∷ xs) = Ends-cons a (Ends-of xs)

reverse_both :
    (a : ℕ) (mid : Bytes) (b : ℕ) → reverse (a ∷ (mid ++ b ∷ [])) ≡ b ∷ (reverse mid ++ a ∷ [])
reverse_both a mid b =
    reverse-cons a (mid ++ b ∷ []) ∙ ap (λ l. l ++ a ∷ []) (reverse-append mid (b ∷ []))

-- One round, from what its accesses give.
swap_round :
    (fuel : ℕ) (str str₁ str₂ : Bytes) (a b lo hi : ℕ)
    → lo < hi
    → get_elem? str hi ≡ some b
    → get_elem? str lo ≡ some a
    → store str hi a ≡ some str₁
    → store str₁ lo b ≡ some str₂
    → swap_ends (suc fuel) str lo hi ≡ swap_ends fuel str₂ (lo + 1) (hi - 1)
unfolding swap_ends
swap_round fuel str str₁ str₂ a b lo hi h eb ea sa sb = rw (lt→ltb lo hi h, eb, ea, sa, sb)

swap_step :
    (fuel : ℕ) (pre mid post : Bytes) (a b lo hi : ℕ)
    → lo ≡ length pre
    → hi ≡ length pre + length mid + 1
    → swap_ends (suc fuel) (pre ++ a ∷ (mid ++ b ∷ post)) lo hi
      ≡ swap_ends fuel (pre ++ b ∷ (mid ++ a ∷ post)) (lo + 1) (hi - 1)
swap_step fuel pre mid post a b lo hi el eh =
    swap_round fuel _ (pre ++ a ∷ (mid ++ a ∷ post)) _ a b lo hi (omega arith)
      (rw (regroup a b) (get_elem?-middle (pre ++ a ∷ mid) hi b post at_hi))
      (get_elem?-middle pre lo a (mid ++ b ∷ post) el)
      (rw (regroup a b, regroup a a) (store-middle (pre ++ a ∷ mid) hi b a post at_hi))
      (store-middle pre lo a b (mid ++ a ∷ post) el)
  where
    regroup : (x y : ℕ) → pre ++ x ∷ (mid ++ y ∷ post) ≡ (pre ++ x ∷ mid) ++ y ∷ post
    regroup x y = sym (append_assoc pre (x ∷ mid) (y ∷ post))

    at_hi : hi ≡ length (pre ++ a ∷ mid)
    at_hi = omega (arith, length-append pre (a ∷ mid))

pub swap_none : (fuel : ℕ) (str : Bytes) (lo hi : ℕ) → hi ≤ lo → swap_ends fuel str lo hi ≡ some str
unfolding swap_ends
swap_none zero str lo hi h = ground arith
swap_none (suc fuel) str lo hi h = ground arith

swap_both :
    (fuel : ℕ) (pre mid post : Bytes) (a b lo hi : ℕ)
    → lo ≡ length pre
    → hi ≡ length pre + length mid + 1
    → swap_ends fuel (pre ++ b ∷ [] ++ (mid ++ a ∷ post)) (lo + 1) (hi - 1)
      ≡ some (pre ++ b ∷ [] ++ (reverse mid ++ a ∷ post))
    → swap_ends (suc fuel) (pre ++ (a ∷ (mid ++ b ∷ []) ++ post)) lo hi
      ≡ some (pre ++ (reverse (a ∷ (mid ++ b ∷ [])) ++ post))
swap_both fuel pre mid post a b lo hi el eh inner =
    rw (append_assoc mid (b ∷ []) post, swap_step fuel pre mid post a b lo hi el eh, reverse_both)
      (ap (λ s. swap_ends fuel s (lo + 1) (hi - 1)) (sym (append_assoc pre (b ∷ []) _))
        ∙ inner
        ∙ ap some (simp append_assoc))

swap_from :
    (fuel : ℕ) (pre : Bytes) {xs : Bytes} (post : Bytes) (lo hi : ℕ)
    → Ends xs
    → length xs ≤ 2 * fuel + 1
    → lo ≡ length pre
    → hi ≡ length pre + length xs - 1
    → swap_ends fuel (pre ++ (xs ++ post)) lo hi ≡ some (pre ++ (reverse xs ++ post))
swap_from fuel pre post lo hi nil h el eh = swap_none fuel _ lo hi (omega arith)
swap_from fuel pre post lo hi (single a) h el eh = swap_none fuel _ lo hi (omega arith)
swap_from zero pre post lo hi (both a mid b) h el eh =
    absurd (omega (arith, length-append mid (b ∷ [])))
swap_from (suc fuel) pre post lo hi (both a mid b) h el eh =
    swap_both fuel pre mid post a b lo hi el (omega (arith, length-append mid (b ∷ []))) (
      swap_from fuel (pre ++ b ∷ []) {xs = mid} (a ∷ post) (lo + 1) (hi - 1) (Ends-of mid)
        (omega (arith, length-append mid (b ∷ []))) (omega (arith, length-append pre (b ∷ [])))
        (omega (arith, length-append mid (b ∷ []), length-append pre (b ∷ []))))

-- The swaps between two indices reverse the bytes from the one to the other.
pub swap_ends-reverse :
    (fuel : ℕ) (pre xs post : Bytes) (lo hi : ℕ)
    → length xs ≤ 2 * fuel + 1
    → lo ≡ length pre
    → hi ≡ length pre + length xs - 1
    → swap_ends fuel (pre ++ (xs ++ post)) lo hi ≡ some (pre ++ (reverse xs ++ post))
swap_ends-reverse fuel pre xs post lo hi = swap_from fuel pre post lo hi (Ends-of xs)
