-- ===== src/Strings/Strcmp/Laws.antt =====
-- What `strcmp` returns on terminated strings.
use micro_kernel.Base.{
  ◌≡◌, ◌↔◌, refl, ap, ◌∙◌, [], ◌∷◌, ◌++◌, some, arith, ◌==◌, if◌then◌else◌, Bytes, IsText,
}
use micro_kernel.Base.Int.{ℤ, pos, sub_ℕ, neg}
use micro_kernel.Strings.Strcmp.{strcmp}

-- The difference of the first bytes that differ, the end of a text being the byte 0.
abbrev pub difference : Bytes → Bytes → ℤ
difference [] [] = pos 0
difference [] (b ∷ t) = sub_ℕ 0 b
difference (a ∷ s) [] = sub_ℕ a 0
difference (a ∷ s) (b ∷ t) = if a == b then difference s t else sub_ℕ a b

pub strcmp-difference :
    (s t u v : Bytes)
    → IsText s
    → IsText t
    → strcmp (s ++ 0 ∷ u) (t ++ 0 ∷ v) ≡ some (difference s t)
unfolding strcmp
strcmp-difference [] [] u v hs ht = refl
strcmp-difference [] (b ∷ t) u v hs ht = ground arith
strcmp-difference (a ∷ s) [] u v hs ht = ground arith
strcmp-difference (a ∷ s) (b ∷ t) u v hs ht = ground (arith, strcmp-difference s t u v)

difference_zero : (s t : Bytes) → IsText s → IsText t → (difference s t ≡ pos 0) ↔ (s ≡ t)
difference_zero [] [] hs ht = ((λ _. refl), (λ _. refl))
difference_zero [] (b ∷ t) hs ht = ground arith
difference_zero (a ∷ s) [] hs ht = ground arith
difference_zero (a ∷ s) (b ∷ t) hs ht = ground (arith, difference_zero s t)

-- On terminated strings `strcmp` reads no byte out of bounds, and it returns 0 exactly when the
-- texts are equal.
pub strcmp_zero_iff :
    (s t u v : Bytes)
    → IsText s
    → IsText t
    → (strcmp (s ++ 0 ∷ u) (t ++ 0 ∷ v) ≡ some (pos 0)) ↔ (s ≡ t)
strcmp_zero_iff s t u v hs ht = ground (arith, strcmp-difference s t u v, difference_zero s t)

difference-neg : (s t : Bytes) → difference t s ≡ neg (difference s t)
difference-neg [] [] = refl
difference-neg [] (b ∷ t) = ground arith
difference-neg (a ∷ s) [] = ground arith
difference-neg (a ∷ s) (b ∷ t) = ground (arith, difference-neg s t)

-- On terminated strings `strcmp` returns, and with its arguments swapped it returns the negated
-- number, so that the sign is an order.
pub strcmp_swap :
    (s t u v : Bytes)
    → IsText s
    → IsText t
    → (d : ℤ) × (strcmp (s ++ 0 ∷ u) (t ++ 0 ∷ v) ≡ some d)
      × (strcmp (t ++ 0 ∷ v) (s ++ 0 ∷ u) ≡ some (neg d))
strcmp_swap s t u v hs ht = (
  difference s t,
  strcmp-difference s t u v hs ht,
  strcmp-difference t s v u ht hs ∙ ap some (difference-neg s t),
)
