-- ===== src/Core/Panic/Halt/Heading.antt =====
-- The heading of the panic screen around its message.
use micro_kernel.Base.{
  ◌≡◌, refl, ◌∙◌, List, [], ◌∷◌, ◌++◌, Option, none, some, ◌>>=◌, arith, Bytes, IsText, codes,
  literal,
}
use micro_kernel.Core.Panic.{Screen, print}
use micro_kernel.Core.Panic.Halt.{clear_rows, heading}
use micro_kernel.Core.Panic.Halt.Steps.{Draws, text-Draws, chain, chain-Draws, rows-Draws}

-- What `heading` does before it prints the message, and after it.
abbrev pub before_message : List (Screen → Option Screen)
before_message =
    clear_rows 25 0 0x4F
    ∷ print (literal "!!! imperium os kernel panic !!!") 22 1 0x4F
    ∷ print (literal "reason:") 2 3 0x0E
    ∷ []

abbrev pub after_message : Bytes → List (Screen → Option Screen)
after_message file = print (literal "at:") 2 4 0x0E ∷ print file 6 4 0x0F ∷ []

pub begin-Draws : Draws 0 (chain before_message)
begin-Draws = chain-Draws 0 before_message (
  rows-Draws 25 0 0x4F,
  (
    text-Draws 0 (codes "!!! imperium os kernel panic !!!") [] 22 1 0x4F (omega arith)
        (omega arith),
    (text-Draws 0 (codes "reason:") [] 2 3 0x0E (omega arith) (omega arith), tt),
  ),
)

pub end-Draws :
    (file rest : Bytes) → IsText file → Draws 320 (chain (after_message (file ++ 0 ∷ rest)))
end-Draws file rest h = chain-Draws 320 (after_message (file ++ 0 ∷ rest)) (
  text-Draws 320 (codes "at:") [] 2 4 0x0E (omega arith) (omega arith),
  (text-Draws 320 file rest 6 4 0x0F (omega arith) h, tt),
)

bind_assoc :
    (o : Option Screen) (f g : Screen → Option Screen) → (o >>= λ s. f s >>= g) ≡ ((o >>= f) >>= g)
bind_assoc none f g = refl
bind_assoc (some s) f g = refl

regroup :
    (a b c rest : Screen → Option Screen) (s : Screen)
    → (a s >>= λ x. b x >>= λ y. c y >>= rest) ≡ ((a s >>= λ x. b x >>= c) >>= rest)
regroup a b c rest s =
    (λ i. a s >>= λ x. bind_assoc (b x) c rest i) ∙ bind_assoc (a s) (λ x. b x >>= c) rest

pub heading_lem :
    (message file : Bytes) (s s₁ s₂ s₃ : Screen)
    → chain before_message s ≡ some s₁
    → print message 10 3 0x0F s₁ ≡ some s₂
    → chain (after_message file) s₂ ≡ some s₃
    → heading message file s ≡ some s₃
unfolding heading
heading_lem message file s s₁ s₂ s₃ e₁ e₂ e₃ =
    regroup (clear_rows 25 0 0x4F) (print (literal "!!! imperium os kernel panic !!!") 22 1 0x4F)
      (print (literal "reason:") 2 3 0x0E)
      (λ s'. print message 10 3 0x0F s' >>= chain (after_message file)) s
    ∙ rw (e₁, e₂, e₃) refl

pub heading-Draws :
    (message rest file rest' : Bytes)
    → IsText message
    → IsText file
    → Draws 0 (heading (message ++ 0 ∷ rest) (file ++ 0 ∷ rest'))
heading-Draws message rest file rest' hm hf s size =
    let (s₁, e₁, n₁, _) = begin-Draws s size in
    let (s₂, e₂, n₂, _) = text-Draws 0 message rest 10 3 0x0F (omega arith) hm s₁ (n₁ ∙ size) in
    let (s₃, e₃, n₃, _) = end-Draws file rest' hf s₂ (n₂ ∙ n₁ ∙ size) in
    (
      s₃,
      heading_lem (message ++ 0 ∷ rest) (file ++ 0 ∷ rest') s s₁ s₂ s₃ e₁ e₂ e₃,
      n₃ ∙ n₂ ∙ n₁,
      λ i b. absurd (omega arith),
    )
