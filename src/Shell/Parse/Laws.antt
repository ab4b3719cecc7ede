-- ===== src/Shell/Parse/Laws.antt =====
-- `argv` holds the words of the command line.
use micro_kernel.Base.{
  ℕ, zero, suc, ◌+◌, ◌≡◌, refl, ap, sym, ◌∙◌, List, [], ◌∷◌, ◌++◌, map, append_assoc, append-nil,
  Option, none, some, ◌>>=◌, arith, length, take, drop, drop-append, length-append, Bytes, IsText,
  Option-cases, inl, inr, ap₂,
}
use mathlib.Core.Path.{subst₂}
use micro_kernel.Strings.Text.{read_text, read_text-append}
use micro_kernel.Strings.Strtok.{Tokenizer, strtok, resume}
use micro_kernel.Strings.Strtok.Words.{
  words, words_cons, words_behind, first_word, behind, first_word-IsText, behind-IsText,
  IsTextBehind,
}
use micro_kernel.Strings.Strtok.Calls.{cut, resume_end, resume_word}
use micro_kernel.Shell.Parse.{collect, tokenize, max_args, space}

-- The texts that `argv` points to.
abbrev pub texts : Bytes → List ℕ → List (Option Bytes)
texts buffer argv = map (λ p. read_text (drop p buffer)) argv

-- The loop left `done` alone, and `argv` points to the given words.
pub record Collects (done : Bytes) (ws : List Bytes) (r : Option (List ℕ × Tokenizer))
    : Type 0 where
  pub argv : List ℕ
  pub tail : Bytes
  pub last : Option ℕ
  pub returns : r ≡ some (argv, record { buffer = done ++ tail; last = last })
  pub same_texts : texts (done ++ tail) argv ≡ map some ws

abbrev from_resume : ℕ → Bytes → ℕ → Option (List ℕ × Tokenizer)
from_resume left buffer i = resume space buffer i >>= λ (token, m). collect left token m

collect-none : (left : ℕ) (m : Tokenizer) → collect left none m ≡ some ([], m)
unfolding collect
collect-none zero m = refl
collect-none (suc left) m = refl

-- At the terminator nothing is collected.
collect_end :
    (left : ℕ) (done rest : Bytes)
    → Collects done [] (from_resume left (done ++ 0 ∷ rest) (length done))
collect_end left done rest = record {
  argv = [];
  tail = 0 ∷ rest;
  last = some (length done);
  returns = rw (resume_end space done rest, collect-none);
  same_texts = refl;
}

collect-suc :
    (left p i : ℕ) (buffer : Bytes)
    → collect (suc left) (some p) (record { buffer = buffer; last = some i })
      ≡ (from_resume left buffer i >>= λ (argv, m). some (p ∷ argv, m))
unfolding collect strtok
collect-suc left p i buffer = elim (Option-cases (resume space buffer i)) [
  | inl e ↦ rw e
  | inr (x, e) ↦ rw e
]

text_at :
    (done w t : Bytes) → IsText w → read_text (drop (length done) (done ++ (w ++ 0 ∷ t))) ≡ some w
text_at done w t hw =
    ap read_text (drop-append done (length done) (w ++ 0 ∷ t) refl) ∙ read_text-append w t hw

-- The last word: the terminator stands behind it.
Collects-last :
    (left : ℕ) (done w rest : Bytes)
    → IsText w
    → Collects done (w ∷ []) (
        from_resume left (done ++ w ++ 0 ∷ rest) (length done + length w) >>= λ (argv, m).
        some (length done ∷ argv, m))
Collects-last left done w rest hw = record {
  argv = length done ∷ [];
  tail = w ++ 0 ∷ rest;
  last = some (length done + length w);
  returns =
      rw (← length-append done w, resume_end space (done ++ w) rest, collect-none, append_assoc);
  same_texts = ap (λ x. x ∷ []) (text_at done w rest hw);
}

-- A word with a cut behind it, and the loop from there on.
Collects-word :
    (done w : Bytes) (ws : List Bytes) {r : Option (List ℕ × Tokenizer)}
    → IsText w
    → Collects (done ++ (w ++ 0 ∷ [])) ws r
    → Collects done (w ∷ ws) (r >>= λ (argv, m). some (length done ∷ argv, m))
Collects-word done w ws hw c = record {
  argv = length done ∷ c.argv;
  tail = w ++ 0 ∷ c.tail;
  last = c.last;
  returns = rw (c.returns, same);
  same_texts =
      ap₂ ◌∷◌ (text_at done w c.tail hw) (ap (λ b. texts b c.argv) (sym same) ∙ c.same_texts);
}
  where
    same : done ++ (w ++ 0 ∷ []) ++ c.tail ≡ done ++ (w ++ 0 ∷ c.tail)
    same = simp append_assoc

abbrev tail_of : Bytes → Option Bytes → Bytes → Bytes
tail_of w none rest = w ++ 0 ∷ rest
tail_of w (some s) rest = w ++ 0 ∷ s ++ 0 ∷ rest

cut-buffer :
    (done w : Bytes) (r : Option Bytes) (rest : Bytes)
    → (cut done w r rest).buffer ≡ done ++ tail_of w r rest
cut-buffer done w none rest = simp append_assoc
cut-buffer done w (some s) rest = simp append_assoc

-- With `argv` full the word that was found is dropped.
Collects-full :
    (done w : Bytes) (r : Option Bytes) (rest : Bytes)
    → Collects done [] (collect zero (some (length done)) (cut done w r rest))
unfolding collect
Collects-full done w r rest = record {
  argv = [];
  tail = tail_of w r rest;
  last = (cut done w r rest).last;
  returns =
      ap (λ b. some ([], record { buffer = b; last = (cut done w r rest).last }))
        (cut-buffer done w r rest);
  same_texts = refl;
}

take-nil : (n : ℕ) → take {A = Bytes} n [] ≡ []
take-nil zero = refl
take-nil (suc n) = refl

-- One more word, if the loop does its part on what stands behind the cut.
Collects-step :
    (left : ℕ) (done w : Bytes) (r : Option Bytes) (rest : Bytes)
    → IsText w
    → IsTextBehind r
    → ((s : Bytes)
        → IsText s
        → Collects (done ++ (w ++ 0 ∷ [])) (take left (words b' ' s)) (
            from_resume left
              (done ++ (w ++ 0 ∷ []) ++ s ++ 0 ∷ rest)
              (length (done ++ (w ++ 0 ∷ [])))))
    → Collects done
        (w ∷ take left (words_behind b' ' r))
        (collect (suc left) (some (length done)) (cut done w r rest))
Collects-step left done w none rest hw hr ih =
    rw (collect-suc, take-nil left) (Collects-last left done w rest hw)
Collects-step left done w (some s) rest hw hr ih =
    rw (collect-suc, ← same_index, ← same_buffer)
      (Collects-word done w (take left (words b' ' s)) hw (ih s hr))
  where
    same_index : length (done ++ (w ++ 0 ∷ [])) ≡ length done + length w + 1
    same_index = omega (arith, length-append done (w ++ 0 ∷ []), length-append w (0 ∷ []))

    same_buffer : done ++ (w ++ 0 ∷ []) ++ s ++ 0 ∷ rest ≡ done ++ w ++ 0 ∷ s ++ 0 ∷ rest
    same_buffer = simp append_assoc

from_word :
    (left c : ℕ) (done s rest : Bytes)
    → IsText (c ∷ s)
    → from_resume left (done ++ c ∷ s ++ 0 ∷ rest) (length done)
      ≡ collect left
          (some (length done))
          (cut done (first_word b' ' (c ∷ s)) (behind b' ' (c ∷ s)) rest)
from_word left c done s rest hs =
    ap (λ x. x >>= λ (token, m). collect left token m)
      (resume_word b' ' c done s rest (omega arith) hs)

-- From a pointer into the unread text.
collect-Collects :
    (left : ℕ) (done s rest : Bytes)
    → IsText s
    → Collects done
        (take left (words b' ' s))
        (from_resume left (done ++ s ++ 0 ∷ rest) (length done))
collect-Collects zero done [] rest hs = rw append-nil (collect_end 0 done rest)
collect-Collects (suc left) done [] rest hs = rw append-nil (collect_end (suc left) done rest)
collect-Collects zero done (c ∷ s) rest hs =
    rw (from_word 0 c done s rest hs) (Collects-full done _ _ rest)
collect-Collects (suc left) done (c ∷ s) rest hs =
    subst₂ (Collects done) (ap (take (suc left)) (sym (words_cons b' ' c s)))
      (sym (from_word (suc left) c done s rest hs))
      (Collects-step left done _ _ rest (first_word-IsText b' ' (c ∷ s) hs)
        (behind-IsText b' ' (c ∷ s) hs)
        (λ s' hs'. collect-Collects left (done ++ (first_word b' ' (c ∷ s) ++ 0 ∷ [])) s' rest hs'))

-- On a terminated command line the loop of `shell_execute_command` reads and writes nothing out
-- of bounds, and `argv` points to the first 31 words of the line, in order. A space ends a word,
-- also an empty one.
pub tokenize-words :
    (line rest : Bytes) (old : Option ℕ)
    → IsText line
    → Collects []
        (take max_args (words b' ' line))
        (tokenize (record { buffer = line ++ 0 ∷ rest; last = old }))
unfolding tokenize strtok
tokenize-words line rest old h = collect-Collects max_args [] line rest h
