-- ===== src/Core/Printf/Fill.antt =====
-- `shell_printf` on the format of a list of pieces: what it leaves in its buffer, or the write
-- behind the buffer's end.
use micro_kernel.Base.{
  ℕ, zero, suc, ◌+◌, ◌≤◌, ◌<◌, ◌≡◌, refl, ap, ◌∙◌, leb, ◌||◌, if◌then◌else◌, Bool, true, false,
  List, [], ◌∷◌, ◌++◌, append_assoc, none, some, ◌>>=◌, arith, length, length-append, Bytes, All,
  Bool-cases, inl, inr,
}
use micro_kernel.Core.Printf.{put, format, printf_text}
use micro_kernel.Core.Printf.Render.{
  Piece, spelled, passed, IsPiece, spelled_all, passed_all, added, filled, filled_full,
}
use micro_kernel.Core.Printf.Rounds.{format_full, piece-Adds}

begins : (s : Bytes) → (c : ℕ) × (rest : Bytes) × (s ++ 0 ∷ [] ≡ c ∷ rest)
begins [] = (0, [], refl)
begins (c ∷ s) = (c, s ++ 0 ∷ [], refl)

put_last : (out : Bytes) → put 0 out ≡ (if leb (length out) 511 then some (out ++ 0 ∷ []) else none)
unfolding put
put_last out = ground arith

stops : (b : Bool) (out : Bytes) → (if true || b then some out else none) ≡ some out
stops b out = refl

-- What the loop and the terminator leave.
format-filled :
    (ps : List Piece) (fuel : ℕ) (out : Bytes)
    → All IsPiece ps
    → length (spelled_all ps) < fuel
    → length out ≤ 512
    → (format fuel (spelled_all ps ++ 0 ∷ []) (passed_all ps) out >>= put 0)
      ≡ (if leb (length (filled ps out)) 511 then some (filled ps out ++ 0 ∷ []) else none)
format-filled [] zero out h enough room = absurd (omega arith)
format-filled [] (suc fuel) out h enough room =
    unfold format in ap (λ o. o >>= put 0) (stops (leb 511 (length out)) out) ∙ put_last out
format-filled (p ∷ ps) fuel out (hp, h) enough room = elim (Bool-cases (leb 511 (length out))) [
  | inl e ↦
      let (c, rest, shape) = begins (spelled_all (p ∷ ps)) in
      rw (e, shape, format_full fuel c rest (passed_all (p ∷ ps)) out (omega arith) (ground arith))
        (put_last out)
  | inr e ↦
      let sizes = length-append (spelled p) (spelled_all ps) in
      let (c, rest, shape) = begins (spelled_all ps) in
      let (fuel', bound, reads) =
        piece-Adds p fuel c rest (passed_all ps) out hp (omega arith) (ground arith) in
      let out' = out ++ added p out in
      let size = length-append out (added p out) in
      let begin : (format fuel ((spelled p ++ spelled_all ps) ++ 0 ∷ []) (passed p ++ passed_all ps)
              out
            >>= put 0)
          ≡ ((if leb (length out + length (added p out)) 512
                then format fuel' (c ∷ rest) (passed_all ps) out'
                else none)
              >>= put 0) =
        ap (λ s. format fuel s (passed p ++ passed_all ps) out >>= put 0)
          (append_assoc (spelled p) (spelled_all ps) (0 ∷ []) ∙ ap (λ s. spelled p ++ s) shape)
        ∙ ap (λ o. o >>= put 0) reads in
      elim (Bool-cases (leb (length out + length (added p out)) 512)) [
        | inl fits ↦ rw (e) (
            begin
            ∙ rw (fits, ← shape)
                (format-filled ps fuel' out' h (omega arith) (ground (arith, size))))
        | inr over ↦
            let full : filled ps out' ≡ out' = filled_full ps out' (ground (arith, size)) in
            let beyond : leb (length out') 511 ≡ false = ground (arith, size) in
            rw (e, full, beyond) (begin ∙ rw over refl)
      ]
]

-- The bytes that `shell_printf` leaves in its buffer, with the terminator, or the write behind it.
pub printf_text-filled :
    (ps : List Piece)
    → All IsPiece ps
    → printf_text (spelled_all ps ++ 0 ∷ []) (passed_all ps)
      ≡ (if leb (length (filled ps [])) 511 then some (filled ps [] ++ 0 ∷ []) else none)
unfolding printf_text
printf_text-filled ps h =
    format-filled ps (length (spelled_all ps ++ 0 ∷ [])) [] h
      (omega (arith, length-append (spelled_all ps) (0 ∷ []))) (omega arith)
