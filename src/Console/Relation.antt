-- ===== src/Console/Relation.antt =====
-- Two runs in step.
use micro_kernel.Base.{◌≡◌, ap₂, ◌++◌}
use micro_kernel.Console.{Trace, Run, returned, halted, undefined, endless, ◌>>=◌, after}

-- The same calls, and related results where both return. Neither run may be undefined or endless.
abbrev pub RunRel {ℓ κ} : {A : Type ℓ} {B : Type κ} → (A → B → Type 0) → Run A → Run B → Type 0
RunRel R (returned t a) (returned u b) = (t ≡ u) × R a b
RunRel R (halted t) (halted u) = t ≡ u
RunRel R _ _ = ⊥

pub RunRel-after :
    {A B : Type 0} (R : A → B → Type 0) (t u : Trace) (x : Run A) (y : Run B)
    → t ≡ u
    → RunRel R x y
    → RunRel R (after t x) (after u y)
RunRel-after R t u (returned v a) (returned w b) e (same, r) = (ap₂ ◌++◌ e same, r)
RunRel-after R t u (halted v) (halted w) e same = ap₂ ◌++◌ e same
RunRel-after R t u (returned v a) (halted w) e h = h
RunRel-after R t u (returned v a) undefined e h = h
RunRel-after R t u (returned v a) endless e h = h
RunRel-after R t u (halted v) (returned w b) e h = h
RunRel-after R t u (halted v) undefined e h = h
RunRel-after R t u (halted v) endless e h = h
RunRel-after R t u undefined y e h = absurd h
RunRel-after R t u endless y e h = absurd h

pub RunRel->>= :
    {A B C D : Type 0} (R : A → B → Type 0) (S : C → D → Type 0) (x : Run A) (y : Run B)
    (f : A → Run C) (g : B → Run D)
    → RunRel R x y
    → ((a : A) (b : B) → R a b → RunRel S (f a) (g b))
    → RunRel S (x >>= f) (y >>= g)
RunRel->>= R S (returned v a) (returned w b) f g (same, r) k =
    RunRel-after S v w (f a) (g b) same (k a b r)
RunRel->>= R S (halted v) (halted w) f g same k = same
RunRel->>= R S (returned v a) (halted w) f g h k = absurd h
RunRel->>= R S (returned v a) undefined f g h k = absurd h
RunRel->>= R S (returned v a) endless f g h k = absurd h
RunRel->>= R S (halted v) (returned w b) f g h k = absurd h
RunRel->>= R S (halted v) undefined f g h k = absurd h
RunRel->>= R S (halted v) endless f g h k = absurd h
RunRel->>= R S undefined y f g h k = absurd h
RunRel->>= R S endless y f g h k = absurd h
