-- ===== src/Console/Laws.antt =====
-- Sequencing is associative, and traces add up.
use micro_kernel.Base.{◌≡◌, refl, sym, ap, [], ◌++◌, append_assoc}
use micro_kernel.Console.{Trace, Run, returned, halted, undefined, endless, after, ◌>>=◌}

-- The calls of a run that stops or returns.
abbrev pub trace_of {ℓ} : {A : Type ℓ} → Run A → Trace
trace_of (returned t a) = t
trace_of (halted t) = t
trace_of undefined = []
trace_of endless = []

abbrev pub value_of {ℓ} : {A : Type ℓ} → A → Run A → A
value_of d (returned t a) = a
value_of d (halted t) = d
value_of d undefined = d
value_of d endless = d

module _ {ℓ} {A : Type ℓ} where
  pub after-after : (t u : Trace) (r : Run A) → after t (after u r) ≡ after (t ++ u) r
  after-after t u (returned v a) = ap (λ w. returned w a) (sym (append_assoc t u v))
  after-after t u (halted v) = ap halted (sym (append_assoc t u v))
  after-after t u undefined = refl
  after-after t u endless = refl

  pub after-nil : (r : Run A) → after [] r ≡ r
  after-nil (returned v a) = refl
  after-nil (halted v) = refl
  after-nil undefined = refl
  after-nil endless = refl

module _ {ℓ κ} {A : Type ℓ} {B : Type κ} where
  pub after->>= : (t : Trace) (r : Run A) (f : A → Run B) → (after t r >>= f) ≡ after t (r >>= f)
  after->>= t (returned v a) f = sym (after-after t v (f a))
  after->>= t (halted v) f = refl
  after->>= t undefined f = refl
  after->>= t endless f = refl
