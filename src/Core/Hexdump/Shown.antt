-- ===== src/Core/Hexdump/Shown.antt =====
-- A dump shows the rows of its range.
use micro_kernel.Base.{
  ℕ, zero, suc, ◌+◌, ◌-◌, ◌*◌, ◌/◌, ◌%◌, ◌<◌, ◌≡◌, refl, sym, ap, ap₂, subst, ◌∙◌, ◌==◌, false, [],
  ◌∷◌, ◌++◌, append_assoc, append-nil, arith, length, replicate, take, drop, take-append-drop,
  length-take, length-drop, listed, listed-get_or, get_or, Bytes,
}
use micro_kernel.Base.Int.{pos}
use micro_kernel.Console.{pure, after, ◌>>=◌}
use micro_kernel.Pmm.Multiboot.{Memory, read_u8}
use micro_kernel.Core.Hexdump.{ascii_char, begin_line, dump, dump_range}
use micro_kernel.Core.Hexdump.Rows.{
  hexes, chars, heading, ending, padding, row, full_rows, last_row, dump_text, Prints, then-Prints,
  as_text,
}
use micro_kernel.Core.Hexdump.Loop.{length-chars, chars-IsText, row-Prints}
use micro_kernel.Core.Hexdump.Last.{finish, full_ends, part_ends, starts, follows}

regroup :
    (b h x e f l : Bytes) → (b ++ h) ++ (x ++ (e ++ (f ++ l))) ≡ b ++ (((h ++ (x ++ e)) ++ f) ++ l)
regroup b h x e f l = simp append_assoc

module _ (m : Memory) (addr len : ℕ) where
  -- The loop is over.
  over :
      (total s : ℕ) (a x : Bytes)
      → total ≡ 0
      → Prints (finish len a) x (pos 0)
      → Prints (dump total s m addr a >>= finish len) x (pos 0)
  unfolding dump
  over zero s a x h (t, e, w) = (t, ap (after []) e, w)
  over (suc total) s a x h p = absurd (omega arith)

  row_full :
      (s : ℕ)
      → row m addr 16 s ≡ heading addr s ++ (hexes m addr 16 s ++ ending (chars m addr 16 s))
  unfolding row padding
  row_full s =
      ap (λ t. heading addr s ++ (hexes m addr 16 s ++ ending t)) (append-nil (chars m addr 16 s))

  -- Behind a full row.
  goes_on :
      (q n s : ℕ)
      → len % 16 ≡ n
      → (0 < 16 * q + n
          → Prints
              (dump (16 * q + n) (s + 16) m addr (chars m addr 16 s ++ 0 ∷ []) >>= finish len)
              (ending (chars m addr 16 s)
                ++ (full_rows m addr q (s + 16) ++ last_row m addr n (s + 16 + 16 * q)))
              (pos 0))
      → Prints
          (dump (16 * q + n) (s + 16) m addr (chars m addr 16 s ++ 0 ∷ []) >>= finish len)
          (ending (chars m addr 16 s)
            ++ (full_rows m addr q (s + 16) ++ last_row m addr n (s + 16 + 16 * q)))
          (pos 0)
  unfolding full_rows last_row
  goes_on zero zero s h next =
      over (16 * 0 + 0) (s + 16) (chars m addr 16 s ++ 0 ∷ []) _ (omega arith) (
        as_text _ (ending (chars m addr 16 s)) _ (pos 0) (full_ends m addr len s h)
          (sym (append-nil (ending (chars m addr 16 s)))))
  goes_on zero (suc n) s h next = next (omega arith)
  goes_on (suc q) n s h next = next (omega arith)

  -- The loop from a row's beginning with the end of the row before, if there is one, in `before`.
  rows-Prints :
      (q n total s u : ℕ) (us before : Bytes)
      → total ≡ 16 * q + n
      → n < 16
      → 0 < total
      → s % 16 ≡ 0
      → length us ≡ 15
      → len % 16 ≡ n
      → Prints (begin_line addr s (u ∷ (us ++ 0 ∷ []))) (before ++ heading addr s) tt
      → Prints
          (dump total s m addr (u ∷ (us ++ 0 ∷ [])) >>= finish len)
          (before ++ (full_rows m addr q s ++ last_row m addr n (s + 16 * q)))
          (pos 0)
  unfolding full_rows last_row row chars
  rows-Prints zero zero total s u us before ht hn positive first size hl begins =
      absurd (omega arith)
  rows-Prints zero (suc n) total s u us before ht hn positive first size hl begins =
      let us₁ = take n us in
      let us₂ = drop n us in
      let split : us₁ ++ us₂ ≡ us = take-append-drop n us in
      let parts : us ++ 0 ∷ [] ≡ us₁ ++ (us₂ ++ 0 ∷ []) =
        ap (λ z. z ++ 0 ∷ []) (sym split) ∙ append_assoc us₁ us₂ (0 ∷ []) in
      let size₁ : length us₁ ≡ n = omega (arith, length-take n us) in
      let size₂ : length us₂ ≡ 16 - suc n = omega (arith, length-drop n us) in
      let rest =
        padding (16 - suc n) ++ ending (chars m addr (suc n) s ++ replicate (16 - suc n) b' ') in
      let begins' =
        subst (λ z. Prints (begin_line addr s (u ∷ z)) (before ++ heading addr s) tt) parts
          begins in
      let ends =
        over 0 (s + suc n) (chars m addr (suc n) s ++ (us₂ ++ 0 ∷ [])) rest refl
          (part_ends m addr len (suc n) s us₂ hl (omega arith) size₂) in
      let printed =
        row-Prints m addr (finish len) (pos 0) n total 0 s (s + suc n) u us₁ (us₂ ++ 0 ∷ [])
          (before ++ heading addr s) rest (omega arith) refl first (omega arith) size₁ begins'
          ends in
      let not_full : (suc n == 0) ≡ false = ground arith in
      subst
        (λ z.
          Prints (dump total s m addr (u ∷ z) >>= finish len)
            (before ++ (full_rows m addr zero s ++ last_row m addr (suc n) (s + 16 * 0))) (pos 0))
        (sym parts)
        (as_text _ ((before ++ heading addr s) ++ (hexes m addr (suc n) s ++ rest)) _ (pos 0)
          printed
          (append_assoc before (heading addr s) (hexes m addr (suc n) s ++ rest)
            ∙ rw not_full (ap (λ p. before ++ row m addr (suc n) p) (omega arith))))
  rows-Prints (suc q) n total s u us before ht hn positive first size hl begins =
      let rest = full_rows m addr q (s + 16) ++ last_row m addr n (s + 16 + 16 * q) in
      let next = goes_on q n s hl (λ more.
        rows-Prints q n (16 * q + n) (s + 16) (ascii_char (read_u8 m (addr + s)))
          (chars m addr 15 (s + 1)) (ending (chars m addr 16 s)) refl hn more (omega arith)
          (length-chars m addr 15 (s + 1)) hl
          (follows m addr len (s + 16) (chars m addr 16 s) (omega arith) (omega arith)
            (chars-IsText m addr 16 s) (omega (arith, length-chars m addr 16 s)))) in
      as_text _
        ((before ++ heading addr s) ++ (hexes m addr 16 s ++ (ending (chars m addr 16 s) ++ rest)))
        _ (pos 0)
        (row-Prints m addr (finish len) (pos 0) 15 total (16 * q + n) s (s + 16) u us (0 ∷ [])
          (before ++ heading addr s) (ending (chars m addr 16 s) ++ rest) (omega arith) refl first
          (omega arith) size begins next)
        (regroup before (heading addr s) (hexes m addr 16 s) (ending (chars m addr 16 s))
            (full_rows m addr q (s + 16)) (last_row m addr n (s + 16 + 16 * q))
          ∙ ap₂ (λ r l. before ++ ((r ++ full_rows m addr q (s + 16)) ++ l)) (sym (row_full s))
              (ap (last_row m addr n) (omega arith)))

  pub range_shown :
      (a : Bytes)
      → length a ≡ 17
      → 0 < len
      → Prints (dump_range m addr len a) (dump_text m addr len) (pos 0)
  unfolding dump_range dump_text
  range_shown a size positive =
      let u = get_or a 0 0 in
      let us = listed 15 (λ i. get_or a (i + 1) 0) in
      let rows =
        rows-Prints (len / 16) (len % 16) len 0 u us [] (omega arith) (omega arith) positive refl
          refl refl (starts m addr len 0 (u ∷ (us ++ 0 ∷ [])) refl) in
      subst
        (λ z.
          Prints (dump_range m addr len z)
            (full_rows m addr (len / 16) 0 ++ last_row m addr (len % 16) (16 * (len / 16))) (pos 0))
        (sym (listed-get_or a 17 0 size))
        (then-Prints (pure (u ∷ (us ++ 0 ∷ []))) (λ a₂. dump len 0 m addr a₂ >>= finish len) [] _ _
          (pos 0) ([], refl, refl)
          (as_text _ _ _ (pos 0) rows (
            ap (λ p. full_rows m addr (len / 16) 0 ++ last_row m addr (len % 16) p) (omega arith))))
