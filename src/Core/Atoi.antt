-- ===== src/Core/Atoi.antt =====
-- coresystem.c, part 1: `k_atoi` and `atoi`.
mod Tests
use micro_kernel.Base.{
  ℕ, zero, suc, ◌+◌, ◌-◌, ◌*◌, ◌/◌, ◌%◌, ◌^◌, ◌≤◌, ◌<◌, ◌≡◌, ◌≢◌, refl, ap, ◌∙◌, ◌==◌, ltb, leb,
  ◌&&◌, if◌then◌else◌, Bool, Bool-cases, inl, inr, true, false, List, [], ◌∷◌, ◌++◌, reverse,
  Option, none, some, ◌>>=◌, arith, Bytes, All, All-append,
}
use mathlib.Core.List.{reverse-cons}
use micro_kernel.Base.Int.{ℤ, pos, negsuc, neg}
use micro_kernel.Strings.Utoa.{digit_char, max_digits}
use micro_kernel.Strings.Utoa.Digits.{digits, digit_chars, digits-lt}
use micro_kernel.Strings.Utoa.Laws.{digit_value, number_from, number_from-printed, printed}
use micro_kernel.Core.Printf.Number.{decimal}

abbrev pub is_digit : ℕ → Bool
is_digit c = leb b'0' c && leb c b'9'

-- The loop over the digits. `none` is a read behind the object, or the overflow of an int.
unfoldable pub read_digits : Bytes → ℕ → Option ℕ
read_digits [] n = none
read_digits (c ∷ s) n =
    let m = n * 10 + (c - b'0') in
    let rest = read_digits s m in
    if is_digit c then if ltb m (2 ^ 31) then rest else none else some n

unfoldable pub k_atoi : Bytes → Option ℤ
k_atoi [] = none
k_atoi (c ∷ s) =
    if c == b'-'
    then (read_digits s 0 >>= λ n. some (neg (pos n)))
    else (read_digits (c ∷ s) 0 >>= λ n. some (pos n))

unfoldable pub atoi : Bytes → Option ℤ
atoi s = k_atoi s

abbrev AreDigits : Bytes → Type 0
AreDigits = All (λ c. (b'0' ≤ c) × (c ≤ b'9'))

number_from-le : (n : ℕ) (t : Bytes) → n ≤ number_from 10 n t
number_from-le n [] = omega arith
number_from-le n (c ∷ t) = omega (arith, number_from-le (n * 10 + digit_value c) t)

read_digits_lem :
    (t rest : Bytes) (n : ℕ)
    → AreDigits t
    → number_from 10 n t < 2 ^ 31
    → read_digits (t ++ 0 ∷ rest) n ≡ some (number_from 10 n t)
unfolding read_digits
read_digits_lem [] rest n h small = refl
read_digits_lem (c ∷ t) rest n ((lo, hi), h) small =
    let value : digit_value c ≡ c - b'0' = ground arith in
    let m = n * 10 + (c - b'0') in
    let small' : number_from 10 m t < 2 ^ 31 = rw value at small in
    let digit : is_digit c ≡ true = ground arith in
    let fits : ltb m (2 ^ 31) ≡ true = ground (arith, number_from-le m t) in
    rw (value, digit, fits) (read_digits_lem t rest m h small')

chars-AreDigits : (ds : List ℕ) → All (λ d. d < 10) ds → AreDigits (reverse (digit_chars ds))
chars-AreDigits [] h = tt
chars-AreDigits (d ∷ ds) (hd, h) = rw (reverse-cons (digit_char d) (digit_chars ds)) (
    All-append _ (reverse (digit_chars ds)) (digit_char d ∷ []) (chars-AreDigits ds h)
      (unfold digit_char in ground arith, tt))

printed-AreDigits : (v : ℕ) → AreDigits (printed 10 v)
printed-AreDigits zero = omega arith
printed-AreDigits (suc v) =
    chars-AreDigits (digits max_digits 10 (suc v)) (digits-lt max_digits 10 (suc v) (omega arith))

k_atoi_digits :
    (t rest : Bytes)
    → AreDigits t
    → number_from 10 0 t < 2 ^ 31
    → k_atoi (t ++ 0 ∷ rest) ≡ some (pos (number_from 10 0 t))
unfolding k_atoi
k_atoi_digits [] rest h small = unfold read_digits in refl
k_atoi_digits (c ∷ t) rest h small =
    let no_sign : (c == b'-') ≡ false = ground arith in
    rw (no_sign, read_digits_lem (c ∷ t) rest 0 h small) refl

-- The int that 32 bits stand for.
abbrev pub signed : ℕ → ℤ
signed v = if leb (2 ^ 31) v then neg (pos (2 ^ 32 - v)) else pos v

-- For each int but the least one, `atoi` reads the decimal text, whatever stands behind its
-- terminator, back to the int.
pub atoi-decimal :
    (v : ℕ) (rest : Bytes)
    → v < 2 ^ 32
    → v ≢ 2 ^ 31
    → atoi (decimal v ++ 0 ∷ rest) ≡ some (signed v)
unfolding atoi
atoi-decimal v rest h ne = elim (Bool-cases (leb (2 ^ 31) v)) [
  | inl e ↦
      let value = number_from-printed 10 (2 ^ 32 - v) (omega arith) (omega arith) (ground arith) in
      let text =
        read_digits_lem (printed 10 (2 ^ 32 - v)) rest 0 (printed-AreDigits (2 ^ 32 - v))
          (ground (arith, value)) in
      rw e (unfold k_atoi in rw (text, value) refl)
  | inr e ↦
      let value = number_from-printed 10 v (omega arith) (omega arith) h in
      rw e (
        k_atoi_digits (printed 10 v) rest (printed-AreDigits v) (ground (arith, value))
        ∙ ap (λ n. some (pos n)) value)
]
