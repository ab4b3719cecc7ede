-- ===== src/Core/Printf/HexText.antt =====
-- What `%x` writes.
use micro_kernel.Base.{
  ℕ, zero, suc, ◌*◌, ◌/◌, ◌%◌, ◌^◌, ◌≤◌, ◌<◌, ◌≡◌, refl, ap, ◌∙◌, ◌==◌, ◌&&◌, ◌||◌, not,
  if◌then◌else◌, Bool-cases, inl, inr, true, false, [], some, arith, bit_and, get_elem?, get_or,
  get_elem?-eq-get_or, length, Bytes, ◌>>>◌,
}
use native.Mathlib.Nat.{pow-suc}
use micro_kernel.Base.Bits.{bit_and_nibble}
use micro_kernel.Core.Panic.{hex}
use micro_kernel.Core.Panic.Hex.{high_first, hex_value, hex_value-high_first}
use mathlib.Core.Path.{fun_ext}
use micro_kernel.Core.Printf.{put_hex, put_all}

-- The digits without leading zeros, and `0` for zero.
unfoldable pub hex_text : ℕ → ℕ → Bytes
hex_text zero v = []
hex_text (suc i) v =
    if v / 16 ^ i % 16 == 0 && not (i == 0) then hex_text i v else high_first (suc i) v

length-high_first : (i v : ℕ) → length (high_first i v) ≡ i
length-high_first zero v = refl
length-high_first (suc i) v = ap suc (length-high_first i v)

pow_16 : (i : ℕ) → 2 ^ (i * 4) ≡ 16 ^ i
pow_16 zero = refl
pow_16 (suc i) =
    let four : suc i * 4 ≡ suc (suc (suc (suc (i * 4)))) = omega arith in
    rw four (
      omega (
        arith,
        pow-suc 2 (suc (suc (suc (i * 4)))),
        pow-suc 2 (suc (suc (i * 4))),
        pow-suc 2 (suc (i * 4)),
        pow-suc 2 (i * 4),
        pow-suc 16 i,
        pow_16 i,
      ))

nibble : (v i : ℕ) → bit_and (v >>> (i * 4)) 0xF ≡ v / 16 ^ i % 16
nibble v i = bit_and_nibble (v / 2 ^ (i * 4)) ∙ ap (λ p. v / p % 16) (pow_16 i)

hex_char : (d : ℕ) → d < 16 → get_elem? hex d ≡ some (get_or hex d 0)
hex_char d h = get_elem?-eq-get_or hex d 0 h

put_started : (i v : ℕ) (out : Bytes) → put_hex i v true out ≡ put_all (high_first i v) out
unfolding put_hex put_all
put_started zero v out = refl
put_started (suc i) v out =
    let c = get_or hex (v / 16 ^ i % 16) 0 in
    let always : (not (v / 16 ^ i % 16 == 0) || true || (i == 0)) ≡ true = ground arith in
    rw (nibble v i, always, hex_char (v / 16 ^ i % 16) (omega arith), fun_ext (put_started i v))
      refl

pub put_hex_lem : (i v : ℕ) (out : Bytes) → put_hex i v false out ≡ put_all (hex_text i v) out
unfolding put_hex hex_text put_all
put_hex_lem zero v out = refl
put_hex_lem (suc i) v out = elim (Bool-cases (v / 16 ^ i % 16 == 0 && not (i == 0))) [
  | inl e ↦
      let hidden : (not (v / 16 ^ i % 16 == 0) || false || (i == 0)) ≡ false = ground arith in
      rw (nibble v i, e, hidden) (put_hex_lem i v out)
  | inr e ↦
      let shown : (not (v / 16 ^ i % 16 == 0) || false || (i == 0)) ≡ true = ground arith in
      rw (nibble v i, e, shown, hex_char (v / 16 ^ i % 16) (omega arith), fun_ext (put_started i v))
        refl
]

hex_value-hex_text : (i v : ℕ) → hex_value (hex_text i v) 0 ≡ hex_value (high_first i v) 0
unfolding hex_text
hex_value-hex_text zero v = refl
hex_value-hex_text (suc i) v = elim (Bool-cases (v / 16 ^ i % 16 == 0 && not (i == 0))) [
  | inl e ↦
      let leading : v / 16 ^ i % 16 ≡ 0 = ground arith in rw (e, leading) (hex_value-hex_text i v)
  | inr e ↦ rw e refl
]

-- Read from the left the digits give the number.
pub hex_text_value : (v : ℕ) → v < 2 ^ 32 → hex_value (hex_text 8 v) 0 ≡ v
hex_text_value v h = hex_value-hex_text 8 v ∙ hex_value-high_first v h

pub length-hex_text : (i v : ℕ) → length (hex_text i v) ≤ i
unfolding hex_text
length-hex_text zero v = omega arith
length-hex_text (suc i) v = ground (arith, length-hex_text i v, length-high_first (suc i) v)
