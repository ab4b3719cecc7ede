-- ===== src/Strings/Strtok.antt =====
-- `strtok`: the static `last` and the string that it points into.
pub mod Words
pub mod Calls
pub mod Length
use micro_kernel.Base.{
  ℕ, ◌+◌, Bool, true, false, [], ◌∷◌, Option, none, some, ◌==◌, if◌then◌else◌, ◌>>=◌, ◌>>◌,
  get_elem?, drop, store, Bytes,
}

-- The object that is tokenized, and the static pointer as an index into it (`none` is NULL).
pub record Tokenizer : Type 0 where
  pub buffer : Bytes
  pub last : Option ℕ

-- The inner loop: is `c` one of the delimiters? `none` is a read behind their end.
unfoldable pub is_delim : ℕ → Bytes → Option Bool
is_delim c [] = none
is_delim c (d ∷ delim) =
    if d == 0 then some false else if c == d then some true else is_delim c delim

-- Where the outer loop ends: at the terminator, or at a delimiter.
pub data Stop : Type 0 where
  at_end at_delim : ℕ → Stop

-- The outer loop from the index `i`, with the bytes from there on.
unfoldable pub scan : Bytes → ℕ → Bytes → Option Stop
scan delim i [] = none
scan delim i (c ∷ s) =
    if c == 0
    then some (at_end i)
    else is_delim c delim >>= λ hit. if hit then some (at_delim i) else scan delim (i + 1) s

-- The cut: the delimiter becomes a terminator and `last` stands behind it.
unfoldable pub finish : Bytes → ℕ → Stop → Option (Option ℕ × Tokenizer)
finish buffer start (at_end j) = some (some start, record { buffer = buffer; last = some j })
finish buffer start (at_delim j) = do
  cut ← store buffer j 0
  some (some start, record { buffer = cut; last = some (j + 1) })

-- From a `last` that is not NULL.
unfoldable pub resume : Bytes → Bytes → ℕ → Option (Option ℕ × Tokenizer)
resume delim buffer i = do
  c ← get_elem? buffer i
  if c == 0
      then some (none, record { buffer = buffer; last = some i })
      else (scan delim i (drop i buffer) >>= finish buffer i)

unfoldable pub strtok : Option ℕ → Bytes → Tokenizer → Option (Option ℕ × Tokenizer)
strtok (some i) delim m = resume delim m.buffer i
strtok none delim m = elim (m.last) [ none ↦ some (none, m) | some i ↦ resume delim m.buffer i ]
