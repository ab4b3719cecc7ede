-- ===== src/Strings/Text.antt =====
-- The text that a C string holds: the bytes before its terminator.
use micro_kernel.Base.{
  ◌<◌, ◌≡◌, refl, ap, [], ◌∷◌, ◌++◌, Option, none, some, arith, ◌==◌, if◌then◌else◌, length,
  Bool-cases, Option-cases, inl, inr, Bytes, IsText,
}

-- The bytes before the first terminator.
abbrev pub text_of : Bytes → Bytes
text_of [] = []
text_of (c ∷ s) = if c == 0 then [] else c ∷ text_of s

-- An object is terminated when a terminator stands in it.
abbrev pub IsTerminated : Bytes → Type 0
IsTerminated s = length (text_of s) < length s

pub text_of-append : (t rest : Bytes) → IsText t → text_of (t ++ 0 ∷ rest) ≡ t
text_of-append [] rest h = refl
text_of-append (c ∷ t) rest (hc, ht) = ground (arith, text_of-append t rest ht)

pub text_of-IsText : (s : Bytes) → IsText (text_of s)
text_of-IsText [] = tt
text_of-IsText (c ∷ s) = ground (arith, text_of-IsText s)

-- A terminated object is its text, the terminator and what stands behind.
pub split_terminated : (s : Bytes) → IsTerminated s → (rest : Bytes) × (s ≡ text_of s ++ 0 ∷ rest)
split_terminated [] h = absurd (omega arith)
split_terminated (c ∷ s) h = elim (Bool-cases (c == 0)) [
  | inl e ↦ (s, ground arith)
  | inr e ↦ let (rest, q) = split_terminated s (ground arith) in (rest, ground arith)
]

-- Reading the text that a pointer points to; `none` is a read behind the end of the object.
unfoldable pub read_text : Bytes → Option Bytes
read_text [] = none
read_text (c ∷ s) =
    if c == 0 then some [] else elim (read_text s) [ none ↦ none | some t ↦ some (c ∷ t) ]

pub read_text-append : (t rest : Bytes) → IsText t → read_text (t ++ 0 ∷ rest) ≡ some t
unfolding read_text
read_text-append [] rest h = refl
read_text-append (c ∷ t) rest (hc, ht) = ground (arith, read_text-append t rest ht)

-- A text that is read stands before its terminator.
pub read_text_inv :
    (s t : Bytes) → read_text s ≡ some t → (rest : Bytes) × (s ≡ t ++ 0 ∷ rest) × IsText t
unfolding read_text
read_text_inv [] t h = cc
read_text_inv (c ∷ s) t h = elim (Bool-cases (c == 0)) [
  | inl e ↦ let empty : t ≡ [] = ground arith in (s, rw empty (ground arith), rw empty tt)
  | inr e ↦ elim (Option-cases (read_text s)) [
    | inl q ↦ absurd (ground arith)
    | inr (t', q) ↦
        let (rest, same, text) = read_text_inv s t' q in
        let longer : t ≡ c ∷ t' = ground arith in
        (rest, rw longer (ap (λ l. c ∷ l) same), rw longer (ground arith, text))
  ]
]
