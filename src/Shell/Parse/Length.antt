-- ===== src/Shell/Parse/Length.antt =====
-- The loop over the words keeps the length of the buffer.
use micro_kernel.Base.{
  ℕ, zero, suc, ◌≡◌, List, Option, none, some, arith, Option-cases, inl, inr, length,
}
use micro_kernel.Strings.Strtok.{Tokenizer, strtok}
use micro_kernel.Strings.Strtok.Length.{length-strtok}
use micro_kernel.Shell.Parse.{collect, tokenize, max_args, space}

length-collect :
    (left : ℕ) (token : Option ℕ) (m : Tokenizer) (argv : List ℕ) (m' : Tokenizer)
    → collect left token m ≡ some (argv, m')
    → length m'.buffer ≡ length m.buffer
unfolding collect
length-collect zero token m argv m' h = ground arith
length-collect (suc left) none m argv m' h = ground arith
length-collect (suc left) (some p) m argv m' h = elim (Option-cases (strtok none space m)) [
  | inl e ↦ absurd (ground arith)
  | inr ((token, mid), e) ↦ elim (Option-cases (collect left token mid)) [
    | inl q ↦ absurd (ground arith)
    | inr ((ps, last), q) ↦
        ground
          (arith, length-collect left token mid ps last q, length-strtok none space m token mid e)
  ]
]

pub length-tokenize :
    (m : Tokenizer) (argv : List ℕ) (m' : Tokenizer)
    → tokenize m ≡ some (argv, m')
    → length m'.buffer ≡ length m.buffer
unfolding tokenize
length-tokenize m argv m' h = elim (Option-cases (strtok (some 0) space m)) [
  | inl e ↦ absurd (ground arith)
  | inr ((token, mid), e) ↦
      ground (
        arith,
        length-collect max_args token mid argv m',
        length-strtok (some 0) space m token mid e,
      )
]
