-- ===== src/Core/Panic/Line.antt =====
-- The line number of the panic screen: `kernel_panic` prints it in decimal by itself, as `utoa` of
-- kernel/string.c does.
use micro_kernel.Base.{
  ℕ, zero, suc, ◌+◌, ◌-◌, ◌/◌, ◌%◌, ◌≤◌, ◌<◌, ◌≡◌, ◌≢◌, refl, ap, sym, ◌∙◌, ◌==◌, lt→ltb,
  if◌then◌else◌, Bool-cases, false, inl, inr, [], ◌∷◌, Option, Option-cases, none, some, ◌>>=◌,
  arith, get_elem?, get_or, get_elem?-eq-get_or, store, store-eq-set, set, length-set, length,
  Bytes,
}
use micro_kernel.Base.Int.{pos}
use micro_kernel.Strings.Utoa.{digit_char, emit, swap_ends, utoa_digits, utoa, max_digits}
use micro_kernel.Strings.Utoa.Reverse.{swap_none}

-- `while (l > 0)`, from the index `i`. `none` is a store out of bounds.
unfoldable pub line_digits : ℕ → ℕ → Bytes → ℕ → Option (Bytes × ℕ)
line_digits zero l buf i = if l == 0 then some (buf, i) else none
line_digits (suc fuel) l buf i =
    let rest = (store buf i (l % 10 + b'0') >>= λ buf'. line_digits fuel (l / 10) buf' (i + 1)) in
    if l == 0 then some (buf, i) else rest

-- The loop that reverses the digits, with the rounds that are left.
unfoldable pub turn : ℕ → ℕ → ℕ → Bytes → Option Bytes
turn zero j i buf = some buf
turn (suc left) j i buf = do
  temp ← get_elem? buf j
  c ← get_elem? buf (i - j - 1)
  buf₁ ← store buf j c
  buf₂ ← store buf₁ (i - j - 1) temp
  turn left (j + 1) i buf₂

-- `buf` is what the stack holds in `line_buf`. A 32-bit number has at most 32 digits.
unfoldable pub line_text : ℕ → Bytes → Option Bytes
line_text line buf = do
  (buf₁, i) ←
      (if line == 0 then (store buf 0 b'0' >>= λ b. some (b, 1)) else line_digits 32 line buf 0)
  buf₂ ← store buf₁ i 0
  turn (i / 2) 0 i buf₂

bind_ext :
    {A B : Type 0} (o : Option A) (f g : A → Option B)
    → ((a : A) → o ≡ some a → f a ≡ g a)
    → (o >>= f) ≡ (o >>= g)
bind_ext none f g h = refl
bind_ext (some a) f g h = h a refl

bind_some : {A : Type 0} (o : Option A) → (o >>= λ a. some a) ≡ o
bind_some none = refl
bind_some (some a) = refl

line_digits-emit :
    (fuel l : ℕ) (buf : Bytes) (i : ℕ) → line_digits fuel l buf i ≡ emit fuel l 10 buf i
unfolding line_digits emit
line_digits-emit zero l buf i = refl
line_digits-emit (suc fuel) l buf i =
    let same : l % 10 + b'0' ≡ digit_char (l % 10) = unfold digit_char in ground arith in
    ap (λ r. if l == 0 then some (buf, i) else r)
      (rw same (
        bind_ext (store buf i (digit_char (l % 10))) _ _
          (λ b stored. line_digits-emit fuel (l / 10) b (i + 1))))

set_comm : (xs : Bytes) (i j a b : ℕ) → i ≢ j → set (set xs i a) j b ≡ set (set xs j b) i a
set_comm [] i j a b h = refl
set_comm (x ∷ xs) zero zero a b h = absurd (h refl)
set_comm (x ∷ xs) zero (suc j) a b h = refl
set_comm (x ∷ xs) (suc i) zero a b h = refl
set_comm (x ∷ xs) (suc i) (suc j) a b h = ap (λ l. x ∷ l) (set_comm xs i j a b (λ e. h (ap suc e)))

abbrev swapped : Bytes → ℕ → ℕ → Bytes
swapped buf lo hi = set (set buf hi (get_or buf lo 0)) lo (get_or buf hi 0)

turn_round :
    (left j i : ℕ) (buf : Bytes)
    → j < i - j - 1
    → i ≤ length buf
    → turn (suc left) j i buf ≡ turn left (j + 1) i (swapped buf j (i - j - 1))
unfolding turn
turn_round left j i buf h size =
    rw
      (
        get_elem?-eq-get_or buf j 0 (omega arith),
        get_elem?-eq-get_or buf (i - j - 1) 0 (omega arith),
        store-eq-set buf j (get_or buf (i - j - 1) 0) (omega arith),
        store-eq-set (set buf j (get_or buf (i - j - 1) 0)) (i - j - 1) (get_or buf j 0)
            (omega (arith, length-set buf j (get_or buf (i - j - 1) 0))),
      )
      (ap (turn left (j + 1) i) (set_comm buf j (i - j - 1) _ _ (omega arith)))

swap_round :
    (fuel lo hi : ℕ) (buf : Bytes)
    → lo < hi
    → hi < length buf
    → swap_ends (suc fuel) buf lo hi ≡ swap_ends fuel (swapped buf lo hi) (lo + 1) (hi - 1)
unfolding swap_ends
swap_round fuel lo hi buf h size =
    rw
      (
        lt→ltb lo hi h,
        get_elem?-eq-get_or buf lo 0 (omega arith),
        get_elem?-eq-get_or buf hi 0 (omega arith),
        store-eq-set buf hi (get_or buf lo 0) (omega arith),
        store-eq-set (set buf hi (get_or buf lo 0)) lo (get_or buf hi 0)
            (omega (arith, length-set buf hi (get_or buf lo 0))),
      )
      refl

turn-swap_ends :
    (left fuel j i : ℕ) (buf : Bytes)
    → j + left ≡ i / 2
    → left ≤ fuel
    → i ≤ length buf
    → turn left j i buf ≡ swap_ends fuel buf j (i - j - 1)
turn-swap_ends zero fuel j i buf h enough size =
    unfold turn in sym (swap_none fuel buf j (i - j - 1) (omega arith))
turn-swap_ends (suc left) zero j i buf h enough size = absurd (omega arith)
turn-swap_ends (suc left) (suc fuel) j i buf h enough size =
    let inside : i - j - 1 < length buf = omega arith in
    let next = swapped buf j (i - j - 1) in
    let size' : length next ≡ length buf =
      length-set (set buf (i - j - 1) (get_or buf j 0)) j (get_or buf (i - j - 1) 0)
      ∙ length-set buf (i - j - 1) (get_or buf j 0) in
    let index : i - (j + 1) - 1 ≡ i - j - 1 - 1 = omega arith in
    turn_round left j i buf (omega arith) size
    ∙ turn-swap_ends left fuel (j + 1) i next (omega arith) (omega arith) (omega arith)
    ∙ ap (swap_ends fuel next (j + 1)) index
    ∙ sym (swap_round fuel j (i - j - 1) buf (omega arith) inside)

-- How far the digits reach.
emit_bounds :
    (fuel v b : ℕ) (str : Bytes) (i : ℕ) (out : Bytes × ℕ)
    → emit fuel v b str i ≡ some out
    → out.1 ≤ i + fuel
unfolding emit
emit_bounds zero v b str i out h = ground arith
emit_bounds (suc fuel) v b str i out h = elim (Bool-cases (v == 0)) [
  | inl e ↦ ground arith
  | inr e ↦ elim (Option-cases (store str i (digit_char (v % b)))) [
    | inl none_stored ↦ absurd (ground arith)
    | inr (str', stored) ↦
        let rest : emit fuel (v / b) b str' (i + 1) ≡ some out = rw (e, stored) at h in
        omega (arith, emit_bounds fuel (v / b) b str' (i + 1) out rest)
  ]
]

store_inside : (xs : Bytes) (i v : ℕ) (ys : Bytes) → store xs i v ≡ some ys → i < length ys
store_inside [] i v ys h = cc
store_inside (x ∷ xs) zero v ys h = ground arith
store_inside (x ∷ xs) (suc i) v ys h = elim (Option-cases (store xs i v)) [
  | inl none_stored ↦ absurd (ground arith)
  | inr (zs, stored) ↦
      let same : x ∷ zs ≡ ys = ground arith in
      omega (arith, ap length same, store_inside xs i v zs stored)
]

-- For each line number and each array, the text that `kernel_panic` makes in the array is the one
-- that `utoa` makes there in base 10, and where the one would store out of bounds the other would
-- too.
pub line_text-utoa : (line : ℕ) (buf : Bytes) → line_text line buf ≡ utoa line buf (pos 10)
unfolding line_text utoa utoa_digits turn
line_text-utoa zero buf = elim (Option-cases (store buf 0 b'0')) [
  | inl none_stored ↦ rw none_stored refl
  | inr (buf₁, stored) ↦ rw stored (bind_some (store buf₁ 1 0))
]
line_text-utoa (suc l) buf =
    let not_zero : (suc l == 0) ≡ false = ground arith in
    rw (not_zero, line_digits-emit 32 (suc l) buf 0)
      (bind_ext (emit 32 (suc l) 10 buf 0) _ _ (λ out emitted.
        bind_ext (store out.0 out.1 0) _ _ (λ buf₂ stored.
          let last : out.1 - 0 - 1 ≡ out.1 - 1 = omega arith in
          turn-swap_ends (out.1 / 2) max_digits 0 out.1 buf₂ (omega arith)
            (omega (arith, emit_bounds 32 (suc l) 10 buf 0 out emitted))
            (omega (arith, store_inside out.0 out.1 0 buf₂ stored))
          ∙ ap (swap_ends max_digits buf₂ 0) last)))
