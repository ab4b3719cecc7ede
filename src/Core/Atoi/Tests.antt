-- ===== src/Core/Atoi/Tests.antt =====
-- `atoi` on texts.
use micro_kernel.Base.{◌≡◌, refl, [], ◌∷◌, ◌++◌, none, some, arith, literal}
use micro_kernel.Base.Int.{pos}
use micro_kernel.Core.Printf.Number.{decimal}
use micro_kernel.Core.Atoi.{atoi, k_atoi, read_digits, signed, atoi-decimal}

up_to_letter : atoi (literal "12ab") ≡ some (pos 12)
unfolding atoi k_atoi read_digits
up_to_letter = refl

too_long : atoi (literal "2147483648") ≡ none
unfolding atoi k_atoi read_digits
too_long = refl

atoi-decimal_example : atoi (decimal 4294967254 ++ 0 ∷ b'x' ∷ []) ≡ some (signed 4294967254)
atoi-decimal_example = atoi-decimal 4294967254 (b'x' ∷ []) (omega arith) (omega arith)
