-- ===== src/Base/Lists.antt =====
-- C arrays as lists, measured and indexed by native numbers, under the library's names.
use Prim.Native.Nat.{ℕ, zero, suc, ◌+◌, ◌-◌, ◌≤◌, ◌<◌, min}
use mathlib.Core.Path.{◌≡◌, refl, ap}
use mathlib.Core.Logic.{◌≢◌, ◌⊎◌, inl, inr}
use mathlib.Core.List.{List, [], ◌∷◌, ◌++◌, map, reverse, reverse-append}
use mathlib.Core.Option.{Option, none, some}
use native.Mathlib.Omega.{arith}

module _ {ℓ} {A : Type ℓ} where
  abbrev pub length : List A → ℕ
  length [] = 0
  length (x ∷ xs) = suc (length xs)

  abbrev pub get_elem? : List A → ℕ → Option A
  get_elem? [] i = none
  get_elem? (x ∷ xs) zero = some x
  get_elem? (x ∷ xs) (suc i) = get_elem? xs i

  -- A write out of bounds changes nothing.
  abbrev pub set : List A → ℕ → A → List A
  set [] i v = []
  set (x ∷ xs) zero v = v ∷ xs
  set (x ∷ xs) (suc i) v = x ∷ set xs i v

  -- A store to an array: `none` is a store out of bounds.
  abbrev pub store : List A → ℕ → A → Option (List A)
  store [] i v = none
  store (x ∷ xs) zero v = some (v ∷ xs)
  store (x ∷ xs) (suc i) v = elim (store xs i v) [ none ↦ none | some ys ↦ some (x ∷ ys) ]

  abbrev pub get_or : List A → ℕ → A → A
  get_or [] i d = d
  get_or (x ∷ xs) zero d = x
  get_or (x ∷ xs) (suc i) d = get_or xs i d

  abbrev pub take : ℕ → List A → List A
  take zero xs = []
  take (suc n) [] = []
  take (suc n) (x ∷ xs) = x ∷ take n xs

  abbrev pub drop : ℕ → List A → List A
  drop zero xs = xs
  drop (suc n) [] = []
  drop (suc n) (x ∷ xs) = drop n xs

  abbrev pub replicate : ℕ → A → List A
  replicate zero a = []
  replicate (suc n) a = a ∷ replicate n a

store-cases {ℓ} : {A : Type ℓ} (o : Option A) → (o ≡ none) ⊎ ((a : A) × (o ≡ some a))
store-cases none = inl refl
store-cases (some a) = inr (a, refl)

module _ {ℓ} {A : Type ℓ} where
  pub length-append : (xs ys : List A) → length (xs ++ ys) ≡ length xs + length ys
  length-append [] ys = omega arith
  length-append (x ∷ xs) ys = omega (arith, length-append xs ys)

  pub length-set : (xs : List A) (i : ℕ) (v : A) → length (set xs i v) ≡ length xs
  length-set [] i v = refl
  length-set (x ∷ xs) zero v = refl
  length-set (x ∷ xs) (suc i) v = ap suc (length-set xs i v)

  pub get_elem?-set_self :
      (xs : List A) (i : ℕ) (v : A) → i < length xs → get_elem? (set xs i v) i ≡ some v
  get_elem?-set_self [] i v h = elim h [ ]
  get_elem?-set_self (x ∷ xs) zero v h = refl
  get_elem?-set_self (x ∷ xs) (suc i) v h = get_elem?-set_self xs i v (omega arith)

  pub get_elem?-set_ne :
      (xs : List A) (i j : ℕ) (v : A) → i ≢ j → get_elem? (set xs i v) j ≡ get_elem? xs j
  get_elem?-set_ne [] i j v h = refl
  get_elem?-set_ne (x ∷ xs) zero zero v h = absurd (h refl)
  get_elem?-set_ne (x ∷ xs) zero (suc j) v h = refl
  get_elem?-set_ne (x ∷ xs) (suc i) zero v h = refl
  get_elem?-set_ne (x ∷ xs) (suc i) (suc j) v h = get_elem?-set_ne xs i j v (λ e. h (ap suc e))

  pub get_elem?-eq-get_or :
      (xs : List A) (i : ℕ) (d : A) → i < length xs → get_elem? xs i ≡ some (get_or xs i d)
  get_elem?-eq-get_or [] i d h = absurd (omega arith)
  get_elem?-eq-get_or (x ∷ xs) zero d h = refl
  get_elem?-eq-get_or (x ∷ xs) (suc i) d h = get_elem?-eq-get_or xs i d (omega arith)

  pub get_or-set_self :
      (xs : List A) (i : ℕ) (v d : A) → i < length xs → get_or (set xs i v) i d ≡ v
  get_or-set_self [] i v d h = absurd (omega arith)
  get_or-set_self (x ∷ xs) zero v d h = refl
  get_or-set_self (x ∷ xs) (suc i) v d h = get_or-set_self xs i v d (omega arith)

  pub get_or-set_ne :
      (xs : List A) (i j : ℕ) (v d : A) → i ≢ j → get_or (set xs i v) j d ≡ get_or xs j d
  get_or-set_ne [] i j v d h = refl
  get_or-set_ne (x ∷ xs) zero zero v d h = absurd (h refl)
  get_or-set_ne (x ∷ xs) zero (suc j) v d h = refl
  get_or-set_ne (x ∷ xs) (suc i) zero v d h = refl
  get_or-set_ne (x ∷ xs) (suc i) (suc j) v d h = get_or-set_ne xs i j v d (λ e. h (ap suc e))

  -- In bounds `store` is `set`.
  pub store-eq-set :
      (xs : List A) (i : ℕ) (v : A) → i < length xs → store xs i v ≡ some (set xs i v)
  store-eq-set [] i v h = absurd (omega arith)
  store-eq-set (x ∷ xs) zero v h = refl
  store-eq-set (x ∷ xs) (suc i) v h = rw (store-eq-set xs i v (omega arith))

  -- A store keeps the length.
  pub length-store :
      (xs : List A) (i : ℕ) (v : A) (ys : List A) → store xs i v ≡ some ys → length ys ≡ length xs
  length-store [] i v ys h = cc
  length-store (x ∷ xs) zero v ys h = ground arith
  length-store (x ∷ xs) (suc i) v ys h = elim (store-cases (store xs i v)) [
    | inl e ↦ absurd (ground arith)
    | inr (zs, e) ↦
        let same : ys ≡ x ∷ zs = ground arith in
        omega (arith, ap length same, length-store xs i v zs e)
  ]

  -- Access at a position that is written out.
  pub get_elem?-middle :
      (xs : List A) (i : ℕ) (v : A) (ys : List A)
      → i ≡ length xs
      → get_elem? (xs ++ v ∷ ys) i ≡ some v
  get_elem?-middle [] zero v ys h = refl
  get_elem?-middle [] (suc i) v ys h = absurd (omega arith)
  get_elem?-middle (x ∷ xs) zero v ys h = absurd (omega arith)
  get_elem?-middle (x ∷ xs) (suc i) v ys h = get_elem?-middle xs i v ys (omega arith)

  pub store-middle :
      (xs : List A) (i : ℕ) (u v : A) (ys : List A)
      → i ≡ length xs
      → store (xs ++ u ∷ ys) i v ≡ some (xs ++ v ∷ ys)
  store-middle [] zero u v ys h = refl
  store-middle [] (suc i) u v ys h = absurd (omega arith)
  store-middle (x ∷ xs) zero u v ys h = absurd (omega arith)
  store-middle (x ∷ xs) (suc i) u v ys h = rw (store-middle xs i u v ys (omega arith))

  pub drop-append : (xs : List A) (i : ℕ) (ys : List A) → i ≡ length xs → drop i (xs ++ ys) ≡ ys
  drop-append [] zero ys h = refl
  drop-append [] (suc i) ys h = absurd (omega arith)
  drop-append (x ∷ xs) zero ys h = absurd (omega arith)
  drop-append (x ∷ xs) (suc i) ys h = drop-append xs i ys (omega arith)

  pub take-append : (xs : List A) (i : ℕ) (ys : List A) → i ≡ length xs → take i (xs ++ ys) ≡ xs
  take-append [] zero ys h = refl
  take-append [] (suc i) ys h = absurd (omega arith)
  take-append (x ∷ xs) zero ys h = absurd (omega arith)
  take-append (x ∷ xs) (suc i) ys h = ap (λ l. x ∷ l) (take-append xs i ys (omega arith))

  -- Behind an index in range there is an element.
  pub drop_cons :
      (xs : List A) (i : ℕ)
      → i < length xs
      → (y : A) × (ys : List A) × (drop i xs ≡ y ∷ ys) × (i + 1 + length ys ≡ length xs)
  drop_cons [] i h = absurd (omega arith)
  drop_cons (x ∷ xs) zero h = (x, xs, refl, omega arith)
  drop_cons (x ∷ xs) (suc i) h =
      let (y, ys, e, n) = drop_cons xs i (omega arith) in (y, ys, e, omega arith)

  pub take-append-drop : (n : ℕ) (xs : List A) → take n xs ++ drop n xs ≡ xs
  take-append-drop zero xs = refl
  take-append-drop (suc n) [] = refl
  take-append-drop (suc n) (x ∷ xs) = rw (take-append-drop n xs)

  pub length-take : (n : ℕ) (xs : List A) → length (take n xs) ≡ min n (length xs)
  length-take zero xs = omega arith
  length-take (suc n) [] = omega arith
  length-take (suc n) (x ∷ xs) = omega (arith, length-take n xs)

  pub drop_all : (n : ℕ) (xs : List A) → length xs ≤ n → drop n xs ≡ []
  drop_all zero [] h = refl
  drop_all zero (x ∷ xs) h = absurd (omega arith)
  drop_all (suc n) [] h = refl
  drop_all (suc n) (x ∷ xs) h = drop_all n xs (omega arith)

  pub take_all : (n : ℕ) (xs : List A) → length xs ≤ n → take n xs ≡ xs
  take_all zero [] h = refl
  take_all zero (x ∷ xs) h = absurd (omega arith)
  take_all (suc n) [] h = refl
  take_all (suc n) (x ∷ xs) h = ap (λ l. x ∷ l) (take_all n xs (omega arith))

  pub length-drop : (n : ℕ) (xs : List A) → length (drop n xs) ≡ length xs - n
  length-drop zero xs = omega arith
  length-drop (suc n) [] = omega arith
  length-drop (suc n) (x ∷ xs) = omega (arith, length-drop n xs)

  pub length-replicate : (n : ℕ) (a : A) → length (replicate n a) ≡ n
  length-replicate zero a = refl
  length-replicate (suc n) a = ap suc (length-replicate n a)

  pub get_or-replicate : (n i : ℕ) (a d : A) → i < n → get_or (replicate n a) i d ≡ a
  get_or-replicate zero i a d h = absurd (omega arith)
  get_or-replicate (suc n) zero a d h = refl
  get_or-replicate (suc n) (suc i) a d h = get_or-replicate n i a d (omega arith)

  pub length-map {κ} : {B : Type κ} (xs : List A) (f : A → B) → length (map f xs) ≡ length xs
  length-map [] f = refl
  length-map (x ∷ xs) f = ap suc (length-map xs f)

  pub length-reverse : (xs : List A) → length (reverse xs) ≡ length xs
  length-reverse [] = refl
  length-reverse (x ∷ xs) = omega (
    arith,
    ap length (reverse-append (x ∷ []) xs),
    length-append (reverse xs) (x ∷ []),
    length-reverse xs,
  )

-- A predicate on every element.
module _ {ℓ κ} {A : Type ℓ} (P : A → Type κ) where
  abbrev pub All : List A → Type κ
  All [] = Unit
  All (x ∷ xs) = P x × All xs

  pub All-append : (xs ys : List A) → All xs → All ys → All (xs ++ ys)
  All-append [] ys _ hy = hy
  All-append (x ∷ xs) ys (px, hx) hy = (px, All-append xs ys hx hy)

  pub All-take : (n : ℕ) (xs : List A) → All xs → All (take n xs)
  All-take zero xs h = tt
  All-take (suc n) [] h = tt
  All-take (suc n) (x ∷ xs) (px, h) = (px, All-take n xs h)

-- The list of a function's first values.
module _ {ℓ} {A : Type ℓ} where
  abbrev pub listed : ℕ → (ℕ → A) → List A
  listed zero f = []
  listed (suc n) f = f 0 ∷ listed n (λ i. f (suc i))

  pub listed-get_or :
      (xs : List A) (n : ℕ) (d : A) → length xs ≡ n → xs ≡ listed n (λ i. get_or xs i d)
  listed-get_or [] zero d h = refl
  listed-get_or [] (suc n) d h = absurd (omega arith)
  listed-get_or (x ∷ xs) zero d h = absurd (omega arith)
  listed-get_or (x ∷ xs) (suc n) d h = ap (λ ys. x ∷ ys) (listed-get_or xs n d (omega arith))
