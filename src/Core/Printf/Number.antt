-- ===== src/Core/Printf/Number.antt =====
-- What the conversions write.
use micro_kernel.Base.{
  ℕ, zero, suc, ◌+◌, ◌-◌, ◌/◌, ◌%◌, ◌^◌, ◌≤◌, ◌<◌, ◌≡◌, ◌≢◌, refl, ap, sym, ◌∙◌, ◌==◌, leb, ◌||◌,
  if◌then◌else◌, Bool-cases, inl, inr, false, [], ◌∷◌, ◌++◌, append_assoc, append-nil, reverse,
  some, arith, length, length-append, length-reverse, lt→ltb, Bytes, IsText, ltb, take, none,
  ℕ-cases, true,
}
use mathlib.Core.List.{reverse-append}
use native.Mathlib.Nat.{pow-suc}
use micro_kernel.Strings.Utoa.Digits.{digits, digit_chars}
use micro_kernel.Strings.Utoa.{digit_char}
use micro_kernel.Strings.Utoa.Laws.{printed, length-printed}
use micro_kernel.Core.Printf.{
  put, put_all, put_string, number_digits, is_negative, magnitude, with_sign, put_decimal,
}

pub put_lem : (c : ℕ) (out : Bytes) → length out < 512 → put c out ≡ some (out ++ c ∷ [])
unfolding put
put_lem c out h = ground arith

pub length-put : (out : Bytes) (c : ℕ) → length (out ++ c ∷ []) ≡ length out + 1
length-put out c = length-append out (c ∷ [])

pub put_all_lem : (t out : Bytes) → length out + length t ≤ 512 → put_all t out ≡ some (out ++ t)
unfolding put_all
put_all_lem [] out h = ap some (sym (append-nil out))
put_all_lem (c ∷ t) out h = rw (put_lem c out (omega arith)) (
    put_all_lem t (out ++ c ∷ []) (omega (arith, length-put out c))
    ∙ ap some (append_assoc out (c ∷ []) t))

pub put_all_over :
    (t out : Bytes) → length out ≤ 512 → 512 < length out + length t → put_all t out ≡ none
unfolding put_all put
put_all_over [] out room over = absurd (omega arith)
put_all_over (c ∷ t) out room over = elim (Bool-cases (ltb (length out) 512)) [
  | inl e ↦ rw e (
      put_all_over t (out ++ c ∷ []) (ground (arith, length-put out c))
        (omega (arith, length-put out c)))
  | inr e ↦ rw e refl
]

-- `%s` writes what there is room for, with one byte left.
pub put_string_lem :
    (t rest out : Bytes)
    → IsText t
    → length out ≤ 511
    → put_string (t ++ 0 ∷ rest) out ≡ put_all (take (511 - length out) t) out
unfolding put_string put_all
put_string_lem [] rest out h size = elim (ℕ-cases (511 - length out)) [
  | inl e ↦ rw e refl
  | inr (k, e) ↦ rw e refl
]
put_string_lem (c ∷ t) rest out (hc, h) size = elim (ℕ-cases (511 - length out)) [
  | inl e ↦ let full : (c == 0 || leb 511 (length out)) ≡ true = ground arith in rw (e, full) refl
  | inr (k, e) ↦
      let goes_on : (c == 0 || leb 511 (length out)) ≡ false = ground arith in
      let left : 511 - length (out ++ c ∷ []) ≡ k = omega (arith, length-put out c) in
      rw (e, goes_on, put_lem c out (omega arith))
        (put_string_lem t rest (out ++ c ∷ []) h (omega (arith, length-put out c))
          ∙ ap (λ j. put_all (take j t) (out ++ c ∷ [])) left)
]

number_digits_lem :
    (room v : ℕ) → v < 2 ^ room → number_digits room v ≡ some (digit_chars (digits room 10 v))
unfolding number_digits digits
number_digits_lem zero v h = ground arith
number_digits_lem (suc room) v h = elim (Bool-cases (v == 0)) [
  | inl e ↦ rw e refl
  | inr e ↦
      let same : b'0' + v % 10 ≡ digit_char (v % 10) = unfold digit_char in ground arith in
      rw (e, number_digits_lem room (v / 10) (omega (arith, pow-suc 2 room)), same) refl
]

-- The decimal text of an int, by its 32 bits.
abbrev pub decimal : ℕ → Bytes
decimal v = if leb (2 ^ 31) v then b'-' ∷ printed 10 (2 ^ 32 - v) else printed 10 v

-- The digits of a magnitude, which is below 2 ^ 32.
digits_of :
    (m : ℕ)
    → m < 2 ^ 32
    → (ds : Bytes) × ((if m == 0 then some (b'0' ∷ []) else number_digits 32 m) ≡ some ds)
      × (reverse ds ≡ printed 10 m)
digits_of zero h = (b'0' ∷ [], refl, refl)
digits_of (suc m) h =
    let not_zero : (suc m == 0) ≡ false = ground arith in
    rw not_zero (digit_chars (digits 32 10 (suc m)), number_digits_lem 32 (suc m) h, refl)

pub put_decimal_lem :
    (v : ℕ) (out : Bytes) → v < 2 ^ 32 → v ≢ 2 ^ 31 → put_decimal v out ≡ put_all (decimal v) out
unfolding put_decimal with_sign magnitude is_negative
put_decimal_lem v out h ne =
    let not_least : (v == 2 ^ 31) ≡ false = ground arith in
    elim (Bool-cases (leb (2 ^ 31) v)) [
      | inl e ↦
          let (ds, made, same) = digits_of (2 ^ 32 - v) (ground arith) in
          let short : length ds < 32 =
            omega (arith, length-reverse ds, ap length same, length-printed (2 ^ 32 - v) 10 10) in
          rw (not_least, e, made, lt→ltb (length ds) 32 short)
            (ap (λ t. put_all t out) (reverse-append ds (b'-' ∷ []) ∙ ap (λ t. b'-' ∷ t) same))
      | inr e ↦
          let (ds, made, same) = digits_of v h in
          rw (not_least, e, made) (ap (λ t. put_all t out) same)
    ]

-- The conversion of the least int is undefined.
put_decimal-least : (out : Bytes) → put_decimal (2 ^ 31) out ≡ none
unfolding put_decimal magnitude
put_decimal-least out = refl

-- At most ten digits and the sign.
pub length-decimal : (v : ℕ) → v < 2 ^ 32 → length (decimal v) ≤ 11
length-decimal v h = ground (arith, length-printed v 10 10, length-printed (2 ^ 32 - v) 10 10)
