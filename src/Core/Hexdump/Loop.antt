-- ===== src/Core/Hexdump/Loop.antt =====
-- The rounds of a row, with what follows the loop.
use micro_kernel.Base.{
  ℕ, zero, suc, ◌+◌, ◌%◌, ◌≤◌, ◌<◌, ◌≡◌, refl, sym, ap, ap₂, subst, ◌∙◌, ◌==◌, false, [], ◌∷◌, ◌++◌,
  append_assoc, some, arith, store, store-middle, length, length-append, Bytes, IsText,
}
use micro_kernel.Console.{Run, after, ◌>>=◌}
use micro_kernel.Console.Laws.{after-nil, after->>=}
use micro_kernel.Pmm.Multiboot.{Memory, read_u8}
use micro_kernel.Core.Printf.HexText.{hex_text}
use micro_kernel.Core.Hexdump.{ascii_char, begin_line, dump}
use micro_kernel.Core.Hexdump.Rows.{written-append, hexes, chars, Prints, as_text, byte-Prints}

byte_of : (m : Memory) (a : ℕ) → read_u8 m a < 256
unfolding read_u8
byte_of m a = omega arith

module _ (m : Memory) (addr : ℕ) where
  pub length-chars : (n i : ℕ) → length (chars m addr n i) ≡ n
  unfolding chars
  length-chars zero i = refl
  length-chars (suc n) i = ap suc (length-chars n (i + 1))

  pub chars-IsText : (n i : ℕ) → IsText (chars m addr n i)
  unfolding chars
  chars-IsText zero i = tt
  chars-IsText (suc n) i = (ground arith, chars-IsText n (i + 1))

  -- One round of the loop, with what follows the loop.
  module _ {B : Type 0} (k : Bytes → Run B) (b : B) where
    step-Prints :
        (left i : ℕ) (a a' : Bytes) (before rest : Bytes)
        → Prints (begin_line addr i a) before tt
        → store a (i % 16) (ascii_char (read_u8 m (addr + i))) ≡ some a'
        → Prints (dump left (i + 1) m addr a' >>= k) rest b
        → Prints
            (dump (suc left) i m addr a >>= k)
            (before ++ (hex_text 8 (read_u8 m (addr + i)) ++ (b' ' ∷ rest)))
            b
    unfolding dump
    step-Prints left i a a' before rest (t, begins, w) stores (v, goes_on, w') =
        let c = read_u8 m (addr + i) in
        let hex = hex_text 8 c in
        let (u, prints, w'') = byte-Prints c (byte_of m (addr + i)) in
        let next = dump left (i + 1) m addr a' in
        (
          t ++ (u ++ v),
          rw (begins, prints, stores)
              (ap (λ r. after t (after u r) >>= k) (after-nil next)
                ∙ (after->>= t (after u next) k
                    ∙ (ap (after t) (after->>= u next k) ∙ ap (λ r. after t (after u r)) goes_on))),
          written-append t (u ++ v)
              ∙ (ap₂ ◌++◌ w (written-append u v ∙ ap₂ ◌++◌ w'' w')
                  ∙ ap (λ x. before ++ x) (append_assoc hex (b' ' ∷ []) rest)),
        )

  quiet : (i : ℕ) (a : Bytes) → (i % 16 == 0) ≡ false → Prints (begin_line addr i a) [] tt
  unfolding begin_line
  quiet i a h = rw h ([], refl, refl)

  -- The rest of a row.
  module _ {B : Type 0} (k : Bytes → Run B) (b : B) where
    inner-Prints :
        (n total left i i' j : ℕ) (xs us ys rest : Bytes)
        → total ≡ n + left
        → i' ≡ i + n
        → i % 16 ≡ j % 16
        → 0 < j
        → j + n ≤ 16
        → length xs ≡ j
        → length us ≡ n
        → Prints (dump left i' m addr (xs ++ (chars m addr n i ++ ys)) >>= k) rest b
        → Prints (dump total i m addr (xs ++ (us ++ ys)) >>= k) (hexes m addr n i ++ rest) b
    unfolding chars hexes
    inner-Prints zero total left i i' j xs [] ys rest ht hi _ _ _ _ _ p =
        subst (λ l. Prints (dump l i m addr (xs ++ ys) >>= k) rest b) (omega arith)
          (subst (λ l. Prints (dump left l m addr (xs ++ ys) >>= k) rest b) (omega arith) p)
    inner-Prints zero total left i i' j xs (u ∷ us) ys rest ht hi _ _ _ _ size p =
        absurd (omega arith)
    inner-Prints (suc n) zero left i i' j xs us ys rest ht hi _ _ _ _ size p = absurd (omega arith)
    inner-Prints (suc n) (suc total) left i i' j xs [] ys rest ht hi _ _ _ _ size p =
        absurd (omega arith)
    inner-Prints (suc n) (suc total) left i i' j xs (u ∷ us) ys rest ht hi hj positive room size_x
          size p =
        let c = ascii_char (read_u8 m (addr + i)) in
        let more = hexes m addr n (i + 1) in
        let not_first : (i % 16 == 0) ≡ false = ground arith in
        let later =
          inner-Prints n total left (i + 1) i' (j + 1) (xs ++ c ∷ []) us ys rest (omega arith)
            (omega arith) (omega arith) (omega arith) (omega arith)
            (omega (arith, length-append xs (c ∷ []))) (omega arith)
            (subst (λ z. Prints (dump left i' m addr z >>= k) rest b)
              (sym (append_assoc xs (c ∷ []) (chars m addr n (i + 1) ++ ys))) p) in
        as_text _ _ _ b
          (step-Prints k b total i (xs ++ u ∷ (us ++ ys)) (xs ++ c ∷ (us ++ ys)) [] (more ++ rest)
            (quiet i _ not_first) (store-middle xs (i % 16) u c (us ++ ys) (omega arith))
            (subst (λ z. Prints (dump total (i + 1) m addr z >>= k) (more ++ rest) b)
              (append_assoc xs (c ∷ []) (us ++ ys)) later))
          (sym (append_assoc (hex_text 8 (read_u8 m (addr + i))) (b' ' ∷ more) rest))

    -- A row from its beginning.
    pub row-Prints :
        (n total left s s' : ℕ) (u : ℕ) (us ys before rest : Bytes)
        → total ≡ suc n + left
        → s' ≡ s + suc n
        → s % 16 ≡ 0
        → suc n ≤ 16
        → length us ≡ n
        → Prints (begin_line addr s (u ∷ (us ++ ys))) before tt
        → Prints (dump left s' m addr (chars m addr (suc n) s ++ ys) >>= k) rest b
        → Prints
            (dump total s m addr (u ∷ (us ++ ys)) >>= k)
            (before ++ (hexes m addr (suc n) s ++ rest))
            b
    unfolding chars hexes
    row-Prints n zero left s s' u us ys before rest ht _ _ _ _ _ _ = absurd (omega arith)
    row-Prints n (suc total) left s s' u us ys before rest ht hs first room size begins p =
        let c = ascii_char (read_u8 m (addr + s)) in
        let more = hexes m addr n (s + 1) in
        as_text _ _ _ b
          (step-Prints k b total s (u ∷ (us ++ ys)) (c ∷ (us ++ ys)) before (more ++ rest) begins
            (rw first refl)
            (inner-Prints n total left (s + 1) s' 1 (c ∷ []) us ys rest (omega arith) (omega arith)
              (omega arith) (omega arith) (omega arith) refl size p))
          (ap (λ x. before ++ x)
            (sym (append_assoc (hex_text 8 (read_u8 m (addr + s))) (b' ' ∷ more) rest)))
