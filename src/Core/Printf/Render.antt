-- ===== src/Core/Printf/Render.antt =====
-- Formats as lists of pieces, and what they show.
use micro_kernel.Base.{
  ℕ, ◌+◌, ◌^◌, ◌≤◌, ◌<◌, ◌≡◌, ◌≢◌, refl, sym, ◌∙◌, leb, false, List, [], ◌∷◌, ◌++◌, append_assoc,
  append-nil, arith, length, length-append, Bytes, IsText, All, take, take_all, if◌then◌else◌, true,
  ◌-◌, codes,
}
use micro_kernel.Core.Printf.{Arg, int, str}
use micro_kernel.Core.Printf.Number.{decimal}
use micro_kernel.Core.Printf.HexText.{hex_text}

-- A text stands before its terminator and what is behind that. The zeros of `%02x` and `%08x` are
-- a part of the conversion.
pub data Piece : Type 0 where
  lit : Bytes → Piece
  percent : Piece
  dec : ℕ → Piece
  hexa hexa_02 hexa_08 : ℕ → Piece
  char : ℕ → Piece
  text : Bytes → Bytes → Piece

abbrev pub spelled : Piece → Bytes
spelled (lit t) = t
spelled percent = codes "%%"
spelled (dec v) = codes "%d"
spelled (hexa v) = codes "%x"
spelled (hexa_02 v) = codes "%02x"
spelled (hexa_08 v) = codes "%08x"
spelled (char c) = codes "%c"
spelled (text t rest) = codes "%s"

abbrev pub passed : Piece → List Arg
passed (lit t) = []
passed percent = []
passed (dec v) = int v ∷ []
passed (hexa v) = int v ∷ []
passed (hexa_02 v) = int v ∷ []
passed (hexa_08 v) = int v ∷ []
passed (char c) = int c ∷ []
passed (text t rest) = str (t ++ 0 ∷ rest) ∷ []

abbrev pub shown : Piece → Bytes
shown (lit t) = t
shown percent = codes "%"
shown (dec v) = decimal v
shown (hexa v) = hex_text 8 v
shown (hexa_02 v) = hex_text 8 v
shown (hexa_08 v) = hex_text 8 v
shown (char c) = c ∷ []
shown (text t rest) = t

-- A literal has no `%`; numbers have 32 bits.
abbrev pub IsPiece : Piece → Type 0
IsPiece (lit t) = All (λ c. (c ≢ 0) × (c ≢ b'%')) t
IsPiece percent = Unit
IsPiece (dec v) = (v < 2 ^ 32) × (v ≢ 2 ^ 31)
IsPiece (hexa v) = v < 2 ^ 32
IsPiece (hexa_02 v) = v < 2 ^ 32
IsPiece (hexa_08 v) = v < 2 ^ 32
IsPiece (char c) = (c < 256) × (c ≢ 0)
IsPiece (text t rest) = IsText t

abbrev pub spelled_all : List Piece → Bytes
spelled_all [] = []
spelled_all (p ∷ ps) = spelled p ++ spelled_all ps

abbrev pub passed_all : List Piece → List Arg
passed_all [] = []
passed_all (p ∷ ps) = passed p ++ passed_all ps

abbrev pub shown_all : List Piece → Bytes
shown_all [] = []
shown_all (p ∷ ps) = shown p ++ shown_all ps

-- What a piece adds to the bytes in the buffer: of a literal or a text what there is room for, with
-- one byte left, and any other piece as a whole.
abbrev pub added : Piece → Bytes → Bytes
added (lit t) out = take (511 - length out) t
added percent out = shown percent
added (dec v) out = shown (dec v)
added (hexa v) out = shown (hexa v)
added (hexa_02 v) out = shown (hexa_02 v)
added (hexa_08 v) out = shown (hexa_08 v)
added (char c) out = shown (char c)
added (text t rest) out = take (511 - length out) t

-- The bytes in the buffer after the pieces: none of them adds to 511 bytes or more.
abbrev pub filled : List Piece → Bytes → Bytes
filled [] out = out
filled (p ∷ ps) out = if leb 511 (length out) then out else filled ps (out ++ added p out)

-- How many bytes are shown.
abbrev pub total : List Piece → ℕ
total [] = 0
total (p ∷ ps) = length (shown p) + total ps

pub length-shown_all : (ps : List Piece) → length (shown_all ps) ≡ total ps
length-shown_all [] = refl
length-shown_all (p ∷ ps) =
    omega (arith, length-append (shown p) (shown_all ps), length-shown_all ps)

pub filled_full : (ps : List Piece) (out : Bytes) → 511 ≤ length out → filled ps out ≡ out
filled_full [] out h = refl
filled_full (p ∷ ps) out h = let full : leb 511 (length out) ≡ true = ground arith in rw full refl

-- Where there is room, a piece adds what it shows.
added-shown :
    (p : Piece) (out : Bytes) → length out + length (shown p) ≤ 511 → added p out ≡ shown p
added-shown (lit t) out h = take_all (511 - length out) t (omega arith)
added-shown percent out h = refl
added-shown (dec v) out h = refl
added-shown (hexa v) out h = refl
added-shown (hexa_02 v) out h = refl
added-shown (hexa_08 v) out h = refl
added-shown (char c) out h = refl
added-shown (text t rest) out h = take_all (511 - length out) t (omega arith)

pub filled-shown_all :
    (ps : List Piece) (out : Bytes)
    → length out + length (shown_all ps) ≤ 510
    → filled ps out ≡ out ++ shown_all ps
filled-shown_all [] out h = sym (append-nil out)
filled-shown_all (p ∷ ps) out h =
    let sizes = length-append (shown p) (shown_all ps) in
    let goes_on : leb 511 (length out) ≡ false = ground arith in
    rw (goes_on, added-shown p out (omega arith))
      (filled-shown_all ps (out ++ shown p) (omega (arith, length-append out (shown p)))
        ∙ append_assoc out (shown p) (shown_all ps))
