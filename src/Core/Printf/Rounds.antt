-- ===== src/Core/Printf/Rounds.antt =====
-- `shell_printf`, piece by piece: how the loop over the format reads one.
use micro_kernel.Base.{
  ℕ, zero, suc, ◌+◌, ◌-◌, ◌≤◌, ◌<◌, ◌≡◌, ◌≢◌, refl, ap, sym, ◌∙◌, ◌==◌, leb, ◌||◌, if◌then◌else◌,
  Bool, true, false, List, [], ◌∷◌, ◌++◌, append_assoc, append-nil, Option, none, some, ◌>>=◌,
  arith, length, length-append, length-take, take, drop, take-append-drop, drop_all, u8, Bytes,
  All-take, Bool-cases, inl, inr,
}
use micro_kernel.Core.Printf.{Arg, convert, skip_digits, skip_pad, put_all, piece, format}
use micro_kernel.Core.Printf.Number.{
  put_lem, length-put, put_all_lem, put_all_over, put_string_lem, put_decimal_lem,
}
use micro_kernel.Core.Printf.HexText.{put_hex_lem}
use micro_kernel.Core.Printf.Render.{
  Piece, lit, percent, dec, hexa, hexa_02, hexa_08, char, text, spelled, passed, IsPiece, added,
}

-- One round with room left.
round :
    (fuel c : ℕ) (f : Bytes) (args : List Arg) (out : Bytes)
    → c ≢ 0
    → length out < 511
    → format (suc fuel) (c ∷ f) args out
      ≡ (piece c f args out >>= λ (f', args', out'). format fuel f' args' out')
unfolding format
round fuel c f args out hc room =
    let goes_on : (c == 0 || leb 511 (length out)) ≡ false = ground arith in rw goes_on refl

-- The loop ends when one byte is left.
pub format_full :
    (fuel c : ℕ) (f : Bytes) (args : List Arg) (out : Bytes)
    → 0 < fuel
    → 511 ≤ length out
    → format fuel (c ∷ f) args out ≡ some out
unfolding format
format_full zero c f args out enough full = absurd (omega arith)
format_full (suc fuel) c f args out enough full =
    let stops : (c == 0 || leb 511 (length out)) ≡ true = ground arith in rw stops refl

-- A literal that has room takes one round for each of its characters.
lit_rounds :
    (t : Bytes) (fuel : ℕ) (rest : Bytes) (args : List Arg) (out : Bytes)
    → IsPiece (lit t)
    → length out + length t ≤ 511
    → format (fuel + length t) (t ++ rest) args out ≡ format fuel rest args (out ++ t)
unfolding piece
lit_rounds [] fuel rest args out h room =
    let same : fuel + 0 ≡ fuel = omega arith in
    rw same (ap (format fuel rest args) (sym (append-nil out)))
lit_rounds (c ∷ t) fuel rest args out ((hc, hp), h) room =
    let no_percent : (c == b'%') ≡ false = ground arith in
    let one : fuel + length (c ∷ t) ≡ suc (fuel + length t) = omega arith in
    rw one (
      round (fuel + length t) c (t ++ rest) args out hc (omega arith)
      ∙ rw (no_percent, put_lem c out (omega arith))
          (lit_rounds t fuel rest args (out ++ c ∷ []) h (omega (arith, length-put out c))
            ∙ ap (format fuel rest args) (append_assoc out (c ∷ []) t)))

put_all-if {ℓ} :
    {A : Type ℓ} (t out : Bytes) (k : Bytes → Option A)
    → length out ≤ 512
    → (put_all t out >>= k) ≡ (if leb (length out + length t) 512 then k (out ++ t) else none)
put_all-if t out k room = elim (Bool-cases (leb (length out + length t) 512)) [
  | inl e ↦ rw (e, put_all_lem t out (ground arith)) refl
  | inr e ↦ rw (e, put_all_over t out room (ground arith)) refl
]

bind-if {ℓ κ} :
    {A : Type ℓ} {B : Type κ} (b : Bool) (a : A) (k : A → Option B)
    → ((if b then some a else none) >>= k) ≡ (if b then k a else none)
bind-if true a k = refl
bind-if false a k = refl

full_twice :
    (fuel : ℕ) (s : Bytes) (c : ℕ) (rest : Bytes) (args : List Arg) (out : Bytes)
    → 0 < fuel
    → 511 ≤ length out
    → format fuel (s ++ c ∷ rest) args out ≡ format fuel (c ∷ rest) args out
full_twice fuel [] c rest args out enough full = refl
full_twice fuel (d ∷ s) c rest args out enough full =
    format_full fuel d (s ++ c ∷ rest) args out enough full
    ∙ sym (format_full fuel c rest args out enough full)

-- A piece is read by some rounds, at most one for each of its characters, and the format goes on
-- behind it, unless there is a write behind the buffer.
abbrev pub Adds : Piece → ℕ → ℕ → Bytes → List Arg → Bytes → Type 0
Adds p fuel c rest more out =
    (fuel' : ℕ) × (fuel ≤ fuel' + length (spelled p))
    × (format fuel (spelled p ++ c ∷ rest) (passed p ++ more) out ≡ (
        if leb (length out + length (added p out)) 512
        then format fuel' (c ∷ rest) more (out ++ added p out)
        else none))

-- A conversion takes one round.
conversion :
    (p : Piece) (f : Bytes) (fuel c : ℕ) (rest : Bytes) (more : List Arg) (out : Bytes)
    → spelled p ≡ b'%' ∷ f
    → 1 ≤ fuel
    → length out < 511
    → piece b'%' (f ++ c ∷ rest) (passed p ++ more) out
      ≡ (put_all (added p out) out >>= λ out'. some (c ∷ rest, more, out'))
    → Adds p fuel c rest more out
conversion p f zero c rest more out e enough room done = absurd (omega arith)
conversion p f (suc fuel) c rest more out e enough room done =
    let go = λ (r : Option (Bytes × List Arg × Bytes)).
      r >>= λ (f', args', out'). format fuel f' args' out' in
    let t = added p out in
    (
      fuel,
      omega (arith, ap length e),
      ap (λ s. format (suc fuel) (s ++ c ∷ rest) (passed p ++ more) out) e
          ∙ round fuel b'%' (f ++ c ∷ rest) (passed p ++ more) out (omega arith) room
          ∙ ap go (done ∙ put_all-if t out (λ out'. some (c ∷ rest, more, out')) (omega arith))
          ∙ bind-if (leb (length out + length t) 512) (c ∷ rest, more, out ++ t)
              (λ (f', args', out'). format fuel f' args' out'),
    )

lit-Adds :
    (t : Bytes) (fuel c : ℕ) (rest : Bytes) (more : List Arg) (out : Bytes)
    → IsPiece (lit t)
    → length t < fuel
    → length out < 511
    → Adds (lit t) fuel c rest more out
lit-Adds t fuel c rest more out h enough room =
    let k = 511 - length out in
    let s = take k t in
    let size : length out + length s ≤ 511 = omega (arith, length-take k t) in
    let fits : leb (length out + length s) 512 ≡ true = ground arith in
    let fuel' = fuel - length s in
    let count : fuel ≡ fuel' + length s = omega (arith, length-take k t) in
    let reads : format fuel (t ++ c ∷ rest) more out
        ≡ format fuel' (drop k t ++ c ∷ rest) more (out ++ s) =
      ap (λ n. format n (t ++ c ∷ rest) more out) count
      ∙ ap (λ u. format (fuel' + length s) (u ++ c ∷ rest) more out) (sym (take-append-drop k t))
      ∙ ap (λ u. format (fuel' + length s) u more out) (append_assoc s (drop k t) (c ∷ rest))
      ∙ lit_rounds s fuel' (drop k t ++ c ∷ rest) more out (All-take _ k t h) size in
    elim (Bool-cases (leb (length t) k)) [
      | inl e ↦ (
        fuel',
        omega (arith, length-take k t),
        rw fits (
            reads
            ∙ ap (λ u. format fuel' (u ++ c ∷ rest) more (out ++ s)) (drop_all k t (ground arith))),
      )
      | inr e ↦
          let full : 511 ≤ length (out ++ s) =
            ground (arith, length-append out s, length-take k t) in
          let some_left : 0 < fuel' = omega (arith, length-take k t) in
          (
            fuel',
            omega (arith, length-take k t),
            rw fits (reads ∙ full_twice fuel' (drop k t) c rest more (out ++ s) some_left full),
          )
    ]

abbrev Answer : Type 0
Answer = Bytes × List Arg × Bytes

then_some :
    (o : Option Bytes) (args : List Arg) (f : Bytes)
    → ◌>>=◌ {B = Answer}
        (◌>>=◌ {B = List Arg × Bytes} o (λ out. some (args, out)))
        (λ (args', out'). some (f, args', out'))
      ≡ ◌>>=◌ {B = Answer} o (λ out. some (f, args, out))
then_some none args f = refl
then_some (some out) args f = refl

pub piece-Adds :
    (p : Piece) (fuel c : ℕ) (rest : Bytes) (more : List Arg) (out : Bytes)
    → IsPiece p
    → length (spelled p) < fuel
    → length out < 511
    → Adds p fuel c rest more out
unfolding piece convert skip_pad skip_digits put_all
piece-Adds (lit t) fuel c rest more out h enough room =
    lit-Adds t fuel c rest more out h enough room
piece-Adds percent fuel c rest more out h enough room =
    conversion percent _ fuel c rest more out refl (omega arith) room
      (rw (put_lem b'%' out (omega arith)) refl)
piece-Adds (dec v) fuel c rest more out (h, ne) enough room =
    conversion (dec v) _ fuel c rest more out refl (omega arith) room
      (rw (put_decimal_lem v out h ne) (then_some _ more (c ∷ rest)))
piece-Adds (char c') fuel c rest more out (hc, h) enough room =
    let byte : u8 c' ≡ c' = ground arith in
    conversion (char c') _ fuel c rest more out refl (omega arith) room
      (rw byte (rw (put_lem c' out (omega arith)) refl))
piece-Adds (text t behind) fuel c rest more out h enough room =
    conversion (text t behind) _ fuel c rest more out refl (omega arith) room
      (rw (put_string_lem t behind out h (omega arith)) (then_some _ more (c ∷ rest)))
piece-Adds (hexa v) fuel c rest more out h enough room =
    conversion (hexa v) _ fuel c rest more out refl (omega arith) room
      (rw (put_hex_lem 8 v out) (then_some _ more (c ∷ rest)))
piece-Adds (hexa_02 v) fuel c rest more out h enough room =
    conversion (hexa_02 v) _ fuel c rest more out refl (omega arith) room
      (rw (put_hex_lem 8 v out) (then_some _ more (c ∷ rest)))
piece-Adds (hexa_08 v) fuel c rest more out h enough room =
    conversion (hexa_08 v) _ fuel c rest more out refl (omega arith) room
      (rw (put_hex_lem 8 v out) (then_some _ more (c ∷ rest)))
