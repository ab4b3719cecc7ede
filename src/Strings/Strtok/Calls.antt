-- ===== src/Strings/Strtok/Calls.antt =====
-- One call of `strtok` on a buffer whose unread part is written out.
use micro_kernel.Base.{
  ℕ, ◌+◌, ◌≡◌, ◌≢◌, refl, sym, ◌∙◌, ◌∷◌, ◌++◌, append_assoc, append-nil, Option, none, some, arith,
  length, get_elem?, drop, get_elem?-middle, store-middle, drop-append, length-append, Bytes,
  IsText,
}
use micro_kernel.Strings.Strtok.{Tokenizer, Stop, scan, finish, resume}
use micro_kernel.Strings.Strtok.Words.{
  only, stop_of, first_word, behind, rest_of, scan_lem, first_word_rest,
}

-- The buffer and `last` after a call that finds a word.
abbrev pub cut : Bytes → Bytes → Option Bytes → Bytes → Tokenizer
cut done w none rest = record {
  buffer = done ++ w ++ 0 ∷ rest;
  last = some (length done + length w);
}
cut done w (some s) rest = record {
  buffer = done ++ w ++ 0 ∷ s ++ 0 ∷ rest;
  last = some (length done + length w + 1);
}

-- At the terminator there is no word, and nothing changes but `last`.
pub resume_end :
    (delim done rest : Bytes)
    → resume delim (done ++ 0 ∷ rest) (length done)
      ≡ some (none, record { buffer = done ++ 0 ∷ rest; last = some (length done) })
unfolding resume
resume_end delim done rest = rw (get_elem?-middle done (length done) 0 rest refl)

-- The same bytes, with the delimiter in the middle.
around_delim :
    (d : ℕ) (done w r rest s : Bytes)
    → s ≡ w ++ d ∷ r
    → done ++ s ++ 0 ∷ rest ≡ (done ++ w) ++ d ∷ (r ++ 0 ∷ rest)
around_delim d done w r rest s e = rw e (simp append_assoc)

finish_lem :
    (d : ℕ) (done w : Bytes) (r : Option Bytes) (rest s : Bytes)
    → s ≡ w ++ rest_of d r
    → finish (done ++ s ++ 0 ∷ rest) (length done) (stop_of (length done + length w) r)
      ≡ some (some (length done), cut done w r rest)
unfolding finish
finish_lem d done w none rest s e = rw (e, append-nil)
finish_lem d done w (some r) rest s e =
    rw
      (
        around_delim d done w r rest s e,
        store-middle (done ++ w) (length done + length w) d 0 (r ++ 0 ∷ rest)
            (sym (length-append done w)),
      )
      (simp append_assoc)

resume-scan :
    (delim buffer : Bytes) (i c : ℕ) (s : Bytes) (stop : Stop)
    → c ≢ 0
    → get_elem? buffer i ≡ some c
    → drop i buffer ≡ s
    → scan delim i s ≡ some stop
    → resume delim buffer i ≡ finish buffer i stop
unfolding resume
resume-scan delim buffer i c s stop hc h e hs = rw (h, e, hs) (ground arith)

-- A call with unread text returns the pointer to it, and cuts behind its first word.
pub resume_word :
    (d c : ℕ) (done s rest : Bytes)
    → d ≢ 0
    → IsText (c ∷ s)
    → resume (only d) (done ++ c ∷ s ++ 0 ∷ rest) (length done)
      ≡ some (some (length done), cut done (first_word d (c ∷ s)) (behind d (c ∷ s)) rest)
resume_word d c done s rest hd (hc, hs) =
    resume-scan (only d) _ (length done) c (c ∷ s ++ 0 ∷ rest)
      (stop_of (length done + length (first_word d (c ∷ s))) (behind d (c ∷ s))) hc
      (rw (append_assoc done (c ∷ s) (0 ∷ rest))
        (get_elem?-middle done (length done) c (s ++ 0 ∷ rest) refl))
      (rw (append_assoc done (c ∷ s) (0 ∷ rest)) (drop-append done (length done) _ refl))
      (scan_lem d (length done) (c ∷ s) rest hd (hc, hs))
    ∙ finish_lem d done (first_word d (c ∷ s)) (behind d (c ∷ s)) rest (c ∷ s)
        (first_word_rest d (c ∷ s))
