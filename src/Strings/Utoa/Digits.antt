-- ===== src/Strings/Utoa/Digits.antt =====
-- The digits of a number from the last to the first, and the number that they stand for.
use micro_kernel.Base.{
  ℕ, zero, suc, ◌+◌, ◌*◌, ◌/◌, ◌%◌, ◌^◌, ◌≤◌, ◌<◌, ◌≡◌, ◌≢◌, refl, sym, ap, ap₂, ◌∙◌, List, [], ◌∷◌,
  ◌++◌, append_assoc, map, Option, some, arith, ◌==◌, if◌then◌else◌, length, drop, store-middle,
  length-append, Bytes, All, Bool-cases, inl, inr,
}
use native.Mathlib.Nat.{add-zero, pow-suc, pow-zero, mod-add-div, div-lt_iff_lt-mul}
use micro_kernel.Strings.Utoa.{digit_char, emit}

unfoldable pub digits : ℕ → ℕ → ℕ → List ℕ
digits zero b v = []
digits (suc fuel) b v = if v == 0 then [] else v % b ∷ digits fuel b (v / b)

pub digits-zero : (fuel b : ℕ) → digits fuel b 0 ≡ []
unfolding digits
digits-zero zero b = refl
digits-zero (suc fuel) b = refl

pub digits-suc : (fuel b v : ℕ) → v ≢ 0 → digits (suc fuel) b v ≡ v % b ∷ digits fuel b (v / b)
unfolding digits
digits-suc fuel b v h = ground arith

pub length-digits_fuel : (fuel b v : ℕ) → length (digits fuel b v) ≤ fuel
unfolding digits
length-digits_fuel zero b v = omega arith
length-digits_fuel (suc fuel) b v = ground (arith, length-digits_fuel fuel b (v / b))

-- The number that digits from the last to the first stand for.
abbrev pub of_digits : ℕ → List ℕ → ℕ
of_digits b [] = 0
of_digits b (d ∷ ds) = d + b * of_digits b ds

halves : (v b : ℕ) → 2 ≤ b → v / b ≤ v / 2
halves v b h = grind arith

pub of_digits-digits : (fuel b v : ℕ) → 2 ≤ b → v < 2 ^ fuel → of_digits b (digits fuel b v) ≡ v
unfolding digits
of_digits-digits zero b v hb hv = omega arith
of_digits-digits (suc fuel) b v hb hv = elim (Bool-cases (v == 0)) [
  | inl e ↦ rw e (ground arith)
  | inr e ↦
      rw (e, of_digits-digits fuel b (v / b) hb (omega (arith, halves v b hb, pow-suc 2 fuel)))
        (mod-add-div v b)
]

div-lt-pow : (b v k : ℕ) → 2 ≤ b → v < b ^ suc k → v / b < b ^ k
div-lt-pow b v k hb h = (div-lt_iff_lt-mul {k = b} (omega arith)).1 (rw pow-suc at h)

pub length-digits : (fuel b v k : ℕ) → 2 ≤ b → v < b ^ k → length (digits fuel b v) ≤ k
unfolding digits
length-digits zero b v k hb h = omega arith
length-digits (suc fuel) b v zero hb h = ground (arith, pow-zero b)
length-digits (suc fuel) b v (suc k) hb h =
    ground (arith, length-digits fuel b (v / b) k hb (div-lt-pow b v k hb h))

pub digits-lt : (fuel b v : ℕ) → 2 ≤ b → All (λ d. d < b) (digits fuel b v)
unfolding digits
digits-lt zero b v hb = tt
digits-lt (suc fuel) b v hb = elim (Bool-cases (v == 0)) [
  | inl e ↦ rw e tt
  | inr e ↦ rw e (grind arith, digits-lt fuel b (v / b) hb)
]

abbrev pub digit_chars : List ℕ → Bytes
digit_chars = map digit_char

-- One round of the loop, at the end of the digits stored so far.
emit_round :
    (fuel v b old : ℕ) (pre post : Bytes) (i : ℕ)
    → v ≢ 0
    → i ≡ length pre
    → emit (suc fuel) v b (pre ++ old ∷ post) i
      ≡ emit fuel (v / b) b (pre ++ digit_char (v % b) ∷ post) (i + 1)
unfolding emit
emit_round fuel v b old pre post i hv hi =
    ground (arith, store-middle pre i old (digit_char (v % b)) post hi)

emit_done : (fuel b : ℕ) (str : Bytes) (i : ℕ) → emit fuel 0 b str i ≡ some (str, i)
unfolding emit
emit_done zero b str i = refl
emit_done (suc fuel) b str i = refl

-- What `emit` leaves: the characters of the digits, what stood behind them, and the index.
abbrev pub emitted : List ℕ → Bytes → Bytes → ℕ → Option (Bytes × ℕ)
emitted ds pre post i = some (pre ++ (digit_chars ds ++ drop (length ds) post), i + length ds)

emitted_cons :
    (d : ℕ) (ds : List ℕ) (pre post : Bytes) (i old : ℕ)
    → emitted ds (pre ++ digit_char d ∷ []) post (i + 1) ≡ emitted (d ∷ ds) pre (old ∷ post) i
emitted_cons d ds pre post i old =
    ap₂ (λ s n. some (s, n)) (append_assoc pre (digit_char d ∷ []) _) (omega arith)

-- The loop stores the digits from the last to the first and stands behind them.
pub emit-digits :
    (fuel v b : ℕ) (pre post : Bytes) (i : ℕ)
    → 2 ≤ b
    → v < 2 ^ fuel
    → i ≡ length pre
    → length (digits fuel b v) ≤ length post
    → emit fuel v b (pre ++ post) i ≡ emitted (digits fuel b v) pre post i
emit-digits zero v b pre post i hb hv hi room =
    let v_zero : v ≡ 0 = omega arith in rw (v_zero, emit_done, digits-zero, add-zero)
emit-digits (suc fuel) zero b pre post i hb hv hi room = rw (emit_done, digits-zero, add-zero)
emit-digits (suc fuel) (suc v) b pre [] i hb hv hi room =
    absurd (omega (arith, ap length (digits-suc fuel b (suc v) (omega arith))))
emit-digits (suc fuel) (suc v) b pre (old ∷ post) i hb hv hi room =
    rw (digits-suc fuel b (suc v) (omega arith)) (
      emit_round fuel (suc v) b old pre post i (omega arith) hi
      ∙ ap (λ s. emit fuel (suc v / b) b s (i + 1))
          (sym (append_assoc pre (digit_char (suc v % b) ∷ []) post))
      ∙ emit-digits fuel (suc v / b) b (pre ++ digit_char (suc v % b) ∷ []) post (i + 1) hb
          (omega (arith, halves (suc v) b hb, pow-suc 2 fuel))
          (omega (arith, length-append pre (digit_char (suc v % b) ∷ [])))
          (omega (arith, ap length (digits-suc fuel b (suc v) (omega arith))))
      ∙ emitted_cons (suc v % b) (digits fuel b (suc v / b)) pre post i old)
