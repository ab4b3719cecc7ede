-- ===== src/Strings/Strtok/Words.antt =====
-- What repeated calls of `strtok` find: the words between the delimiters, as a recursion.
use micro_kernel.Base.{
  ℕ, ◌+◌, ◌≡◌, ◌≢◌, refl, List, [], ◌∷◌, ◌++◌, Option, none, some, arith, ◌==◌, if◌then◌else◌,
  length, Bytes, IsText,
}
use micro_kernel.Strings.Strtok.{Stop, at_end, at_delim, is_delim, scan}

-- `c` joins the first word of those that follow.
abbrev pub join_first : ℕ → List Bytes → List Bytes
join_first c [] = (c ∷ []) ∷ []
join_first c (w ∷ ws) = (c ∷ w) ∷ ws

-- Every delimiter ends a word, which may be empty; what follows the last one is a word if it is
-- not empty.
abbrev pub words : ℕ → Bytes → List Bytes
words d [] = []
words d (c ∷ s) = if c == d then [] ∷ words d s else join_first c (words d s)

-- One delimiter, as a string literal of one byte.
abbrev pub only : ℕ → Bytes
only d = d ∷ 0 ∷ []

-- The first word, and the text behind its delimiter if one ends it.
abbrev pub first_word : ℕ → Bytes → Bytes
first_word d [] = []
first_word d (c ∷ s) = if c == d then [] else c ∷ first_word d s

abbrev pub behind : ℕ → Bytes → Option Bytes
behind d [] = none
behind d (c ∷ s) = if c == d then some s else behind d s

abbrev pub words_behind : ℕ → Option Bytes → List Bytes
words_behind d none = []
words_behind d (some s) = words d s

-- A text that is not empty is its first word, and the words of the rest.
pub words_cons :
    (d c : ℕ) (s : Bytes)
    → words d (c ∷ s) ≡ first_word d (c ∷ s) ∷ words_behind d (behind d (c ∷ s))
words_cons d c [] = ground arith
words_cons d c (b ∷ s) = ground (arith, words_cons d b s)

abbrev pub rest_of : ℕ → Option Bytes → Bytes
rest_of d none = []
rest_of d (some s) = d ∷ s

pub first_word_rest : (d : ℕ) (s : Bytes) → s ≡ first_word d s ++ rest_of d (behind d s)
first_word_rest d [] = refl
first_word_rest d (c ∷ s) = ground (arith, first_word_rest d s)

pub first_word-IsText : (d : ℕ) (s : Bytes) → IsText s → IsText (first_word d s)
first_word-IsText d [] h = tt
first_word-IsText d (c ∷ s) (hc, hs) = ground (arith, first_word-IsText d s hs)

abbrev pub IsTextBehind : Option Bytes → Type 0
IsTextBehind none = Unit
IsTextBehind (some s) = IsText s

pub behind-IsText : (d : ℕ) (s : Bytes) → IsText s → IsTextBehind (behind d s)
behind-IsText d [] h = tt
behind-IsText d (c ∷ s) (hc, hs) = ground (arith, behind-IsText d s hs)

abbrev pub stop_of : ℕ → Option Bytes → Stop
stop_of j none = at_end j
stop_of j (some s) = at_delim j

-- The scan of a terminated text ends where its first word does.
pub scan_lem :
    (d i : ℕ) (s rest : Bytes)
    → d ≢ 0
    → IsText s
    → scan (only d) i (s ++ 0 ∷ rest) ≡ some (stop_of (i + length (first_word d s)) (behind d s))
unfolding scan is_delim
scan_lem d i [] rest hd h = ground arith
scan_lem d i (c ∷ s) rest hd (hc, hs) = ground (arith, scan_lem d (i + 1) s rest hd hs)
