-- ===== src/Strings/Strtok/Length.antt =====
-- `strtok` keeps the length of the buffer.
use micro_kernel.Base.{
  ℕ, ◌≡◌, Option, none, some, arith, Option-cases, inl, inr, length, length-store, store, drop,
  Bytes,
}
use micro_kernel.Strings.Strtok.{Tokenizer, Stop, at_end, at_delim, scan, finish, resume, strtok}

length-finish :
    (buffer : Bytes) (start : ℕ) (s : Stop) (tok : Option ℕ) (m : Tokenizer)
    → finish buffer start s ≡ some (tok, m)
    → length m.buffer ≡ length buffer
unfolding finish
length-finish buffer start (at_end j) tok m h = ground arith
length-finish buffer start (at_delim j) tok m h = elim (Option-cases (store buffer j 0)) [
  | inl e ↦ absurd (ground arith)
  | inr (cut, e) ↦ ground (arith, length-store buffer j 0 cut e)
]

length-resume :
    (delim buffer : Bytes) (i : ℕ) (tok : Option ℕ) (m : Tokenizer)
    → resume delim buffer i ≡ some (tok, m)
    → length m.buffer ≡ length buffer
unfolding resume
length-resume delim buffer i tok m h = elim (Option-cases (scan delim i (drop i buffer))) [
  | inl e ↦ ground arith
  | inr (s, e) ↦ ground (arith, length-finish buffer i s tok m)
]

pub length-strtok :
    (p : Option ℕ) (delim : Bytes) (m : Tokenizer) (tok : Option ℕ) (m' : Tokenizer)
    → strtok p delim m ≡ some (tok, m')
    → length m'.buffer ≡ length m.buffer
unfolding strtok
length-strtok (some i) delim m tok m' h = length-resume delim m.buffer i tok m' h
length-strtok none delim m tok m' h = elim (Option-cases m.last) [
  | inl e ↦ ground arith
  | inr (i, e) ↦ ground (arith, length-resume delim m.buffer i tok m')
]
