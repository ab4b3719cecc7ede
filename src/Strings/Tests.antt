-- ===== src/Strings/Tests.antt =====
-- Runs of the string functions, and the theorems at inputs that meet their hypotheses.
use micro_kernel.Base.{
  ◌+◌, ◌≡◌, refl, [], ◌∷◌, ◌++◌, none, some, arith, length, Bytes, literal, codes,
}
use micro_kernel.Base.Int.{pos, negsuc}
use micro_kernel.Strings.Strcmp.{strcmp}
use micro_kernel.Strings.Strtok.{strtok, resume, scan, is_delim, finish}
use micro_kernel.Strings.Utoa.{utoa, utoa_digits, emit, swap_ends, digit_char}
use micro_kernel.Strings.Utoa.Digits.{digits}
use micro_kernel.Strings.Utoa.Laws.{utoa-printed, printed, number_from}

compares : strcmp (literal "help") (literal "held") ≡ some (pos 12)
unfolding strcmp
compares = refl

runs_off : strcmp (codes "he") (codes "he") ≡ none
unfolding strcmp
runs_off = refl

first_call :
    strtok (some 0) (literal " ") (record { buffer = literal "a  b"; last = none })
    ≡ some (some 0, record { buffer = codes "a" ++ 0 ∷ codes " b" ++ 0 ∷ []; last = some 2 })
unfolding strtok resume scan is_delim finish
first_call = refl

empty_token :
    strtok none (literal " ") (record { buffer = codes "a" ++ 0 ∷ literal " b"; last = some 2 })
    ≡ some (some 2, record { buffer = codes "a" ++ 0 ∷ 0 ∷ literal "b"; last = some 3 })
unfolding strtok resume scan is_delim finish
empty_token = refl

prints : utoa 4096 (codes "            ") (pos 10) ≡ some (codes "4096" ++ 0 ∷ codes "       ")
unfolding utoa utoa_digits emit swap_ends digit_char
prints = refl

prints_hex : utoa 0xbeef (codes "     ") (pos 16) ≡ some (codes "BEEF" ++ 0 ∷ [])
unfolding utoa utoa_digits emit swap_ends digit_char
prints_hex = refl

no_base : utoa 7 (codes "xyz") (negsuc 0) ≡ some (0 ∷ codes "yz")
unfolding utoa
no_base = refl

overflows : utoa 4096 (codes "123") (pos 10) ≡ none
unfolding utoa utoa_digits emit swap_ends digit_char
overflows = refl

utoa-printed_example :
    (rest : Bytes) × (utoa 905 (codes "        ") (pos 10) ≡ some (printed 10 905 ++ 0 ∷ rest))
    × (length (printed 10 905) + 1 + length rest ≡ 8)
    × (number_from 10 0 (printed 10 905) ≡ 905)
unfolding digits
utoa-printed_example =
    utoa-printed 905 10 (codes "        ") (omega arith) (omega arith) (omega arith) (omega arith)
