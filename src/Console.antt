-- ===== src/Console.antt =====
-- kernel/vga.h, the `outb` of kernel/io.h and `panic` of kernel/utils.h, as the rest of the kernel
-- uses them. The bodies of the three display functions are not in the repository and return
-- nothing, so a run records the calls that it makes, in their order.
pub mod Laws
pub mod Relation
use micro_kernel.Base.{ℕ, List, [], ◌∷◌, ◌++◌, Option, none, some, Bytes}
use micro_kernel.Base.Int.{ℤ, negsuc}

-- A string argument is the text that it points to.
pub data Call : Type 0 where
  write_vga_at : Bytes → ℤ → ℤ → ℕ → Call
  write_char_at : ℕ → ℤ → ℤ → ℕ → Call
  clear_screen : Call
  outb : ℕ → ℕ → Call
  panic : Bytes → Call

abbrev pub Trace : Type 0
Trace = List Call

-- A run returns, or it is stopped for good (by `panic` or by a halting loop), or it does what C
-- leaves undefined, or a loop has no end.
pub data Run {ℓ} (A : Type ℓ) : Type ℓ where
  returned : Trace → A → Run A
  halted : Trace → Run A
  undefined : Run A
  endless : Run A

abbrev pub after {ℓ} : {A : Type ℓ} → Trace → Run A → Run A
after t (returned t' a) = returned (t ++ t') a
after t (halted t') = halted (t ++ t')
after t undefined = undefined
after t endless = endless

abbrev pub pure {ℓ} : {A : Type ℓ} → A → Run A
pure a = returned [] a

infixl 5 ◌>>=◌ ◌>>◌
abbrev pub ◌>>=◌ {ℓ κ} : {A : Type ℓ} {B : Type κ} → Run A → (A → Run B) → Run B
returned t a >>= f = after t (f a)
halted t >>= f = halted t
undefined >>= f = undefined
endless >>= f = endless

abbrev pub ◌>>◌ {ℓ κ} : {A : Type ℓ} {B : Type κ} → Run A → Run B → Run B
m >> k = m >>= λ _. k

abbrev pub call : Call → Run (Unit {0})
call c = returned (c ∷ []) tt

-- `panic` does not return.
abbrev pub stop {ℓ} : {A : Type ℓ} → Bytes → Run A
stop message = halted (panic message ∷ [])

-- A step without calls that may be undefined.
abbrev pub lift {ℓ} : {A : Type ℓ} → Option A → Run A
lift none = undefined
lift (some a) = pure a

-- The cursor position -1.
abbrev pub here : ℤ
here = negsuc 0
