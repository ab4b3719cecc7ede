-- ===== src/Strings/Utoa/Laws.antt =====
-- What `utoa` prints.
use micro_kernel.Base.{
  ℕ, zero, suc, ◌+◌, ◌-◌, ◌*◌, ◌^◌, ◌≤◌, ◌<◌, ◌≡◌, ◌≢◌, refl, sym, ap, ap₂, ◌∙◌, List, [], ◌∷◌,
  ◌++◌, reverse, some, arith, ltb, if◌then◌else◌, length, drop_cons, store-middle, length-map,
  length-reverse, Bytes, IsText, All, All-append,
}
use mathlib.Core.List.{reverse-cons}
use micro_kernel.Base.Int.{pos}
use micro_kernel.Strings.Utoa.{digit_char, emit, utoa_digits, utoa, max_digits}
use micro_kernel.Strings.Utoa.Digits.{
  digits, digit_chars, digits-lt, of_digits, of_digits-digits, emit-digits, length-digits,
  length-digits_fuel,
}
use micro_kernel.Strings.Utoa.Reverse.{swap_ends-reverse}

-- The digit that a character stands for.
abbrev pub digit_value : ℕ → ℕ
digit_value c = if ltb b'9' c then c - b'A' + 10 else c - b'0'

-- The number that a text stands for, read from left to right.
abbrev pub number_from : ℕ → ℕ → Bytes → ℕ
number_from b n [] = n
number_from b n (c ∷ s) = number_from b (n * b + digit_value c) s

-- The text of a number: its digits from the first to the last, and `0` for zero.
abbrev pub printed : ℕ → ℕ → Bytes
printed b zero = b'0' ∷ []
printed b (suc v) = reverse (digit_chars (digits max_digits b (suc v)))

digit_value-digit_char : (d : ℕ) → d < 36 → digit_value (digit_char d) ≡ d
unfolding digit_char
digit_value-digit_char d h = ground arith

number_from-append :
    (b n : ℕ) (s t : Bytes) → number_from b n (s ++ t) ≡ number_from b (number_from b n s) t
number_from-append b n [] t = refl
number_from-append b n (c ∷ s) t = number_from-append b (n * b + digit_value c) s t

number_from-reverse :
    (b : ℕ) (ds : List ℕ)
    → All (λ d. d < b) ds
    → b ≤ 36
    → number_from b 0 (reverse (digit_chars ds)) ≡ of_digits b ds
number_from-reverse b [] h hb = refl
number_from-reverse b (d ∷ ds) (hd, hs) hb =
    rw
      (
        reverse-cons (digit_char d) (digit_chars ds),
        number_from-append b 0 (reverse (digit_chars ds)) (digit_char d ∷ []),
        number_from-reverse b ds hs hb,
        digit_value-digit_char d (omega arith),
      )
      (omega arith)

-- Reading back gives the number.
pub number_from-printed :
    (b v : ℕ) → 2 ≤ b → b ≤ 36 → v < 2 ^ 32 → number_from b 0 (printed b v) ≡ v
number_from-printed b zero hb hc hv = omega arith
number_from-printed b (suc v) hb hc hv =
    number_from-reverse b (digits max_digits b (suc v)) (digits-lt max_digits b (suc v) hb) hc
    ∙ of_digits-digits max_digits b (suc v) hb hv

-- The three steps, from what the loop stored.
utoa_digits_lem :
    (v b : ℕ) (str : Bytes) (ds : List ℕ) (old : ℕ) (rest : Bytes)
    → emit max_digits v b str 0 ≡ some (digit_chars ds ++ old ∷ rest, length ds)
    → length ds ≤ max_digits
    → utoa_digits v str b ≡ some (reverse (digit_chars ds) ++ 0 ∷ rest)
unfolding utoa_digits
utoa_digits_lem v b str ds old rest e short =
    rw (e, store-middle (digit_chars ds) (length ds) old 0 rest (sym (length-map ds digit_char)))
      (swap_ends-reverse max_digits [] (digit_chars ds) (0 ∷ rest) 0 (length ds - 1)
        (omega (arith, length-map ds digit_char)) refl (omega (arith, length-map ds digit_char)))

-- For every base from 2 to 36 and every unsigned value, if the buffer has room for the digits and
-- the terminator, `utoa` stores nothing out of bounds and leaves the printed text, the terminator
-- and the rest of the buffer's bytes; reading the text in that base gives the value back.
pub utoa-printed :
    (v b : ℕ) (str : Bytes)
    → 2 ≤ b
    → b ≤ 36
    → v < 2 ^ 32
    → length (printed b v) < length str
    → (rest : Bytes) × (utoa v str (pos b) ≡ some (printed b v ++ 0 ∷ rest))
      × (length (printed b v) + 1 + length rest ≡ length str)
      × (number_from b 0 (printed b v) ≡ v)
unfolding utoa
utoa-printed zero b [] hb hc hv room = absurd (omega arith)
utoa-printed zero b (x ∷ []) hb hc hv room = absurd (omega arith)
utoa-printed zero b (x ∷ y ∷ rest) hb hc hv room = (rest, ground arith, omega arith, omega arith)
utoa-printed (suc v) b str hb hc hv room =
    let ds = digits max_digits b (suc v) in
    let same : length (printed b (suc v)) ≡ length ds =
      length-reverse (digit_chars ds) ∙ length-map ds digit_char in
    let (old, rest, e, n) = drop_cons str (length ds) (omega arith) in
    (
      rest,
      ground (
        arith,
        utoa_digits_lem (suc v) b str ds old rest
            (emit-digits max_digits (suc v) b [] str 0 hb hv refl (omega arith)
              ∙ ap₂ (λ s n. some (s, n)) (ap (λ l. digit_chars ds ++ l) e) (omega arith))
            (length-digits_fuel max_digits b (suc v)),
      ),
      omega arith,
      number_from-printed b (suc v) hb hc hv,
    )

-- A value below `base ^ k` takes at most `k` characters.
pub length-printed : (v b k : ℕ) → 2 ≤ b → 1 ≤ k → v < b ^ k → length (printed b v) ≤ k
length-printed zero b k hb hk h = hk
length-printed (suc v) b k hb hk h = omega (
  arith,
  length-reverse (digit_chars (digits max_digits b (suc v))),
  length-map (digits max_digits b (suc v)) digit_char,
  length-digits max_digits b (suc v) k hb h,
)

digit_char-pos : (d : ℕ) → digit_char d ≢ 0
unfolding digit_char
digit_char-pos d = ground arith

chars-IsText : (ds : List ℕ) → IsText (digit_chars ds)
chars-IsText [] = tt
chars-IsText (d ∷ ds) = (digit_char-pos d, chars-IsText ds)

reverse-IsText : (s : Bytes) → IsText s → IsText (reverse s)
reverse-IsText [] h = tt
reverse-IsText (c ∷ s) (hc, hs) =
    rw (reverse-cons c s) (All-append _ (reverse s) (c ∷ []) (reverse-IsText s hs) (hc, tt))

pub printed-IsText : (b v : ℕ) → IsText (printed b v)
printed-IsText b zero = omega arith
printed-IsText b (suc v) = reverse-IsText _ (chars-IsText (digits max_digits b (suc v)))
