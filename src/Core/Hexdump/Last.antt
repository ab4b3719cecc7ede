-- ===== src/Core/Hexdump/Last.antt =====
-- The ends and the beginnings of the rows.
use micro_kernel.Base.{
  ℕ, zero, suc, ◌+◌, ◌-◌, ◌%◌, ◌≤◌, ◌<◌, ◌≡◌, refl, sym, subst, ◌==◌, ltb, false, true, [], ◌∷◌,
  ◌++◌, append_assoc, append-nil, arith, store-middle, length, length-append, length-replicate,
  replicate, u32, Bytes, IsText, All-append, codes, literal,
}
use micro_kernel.Base.Int.{pos, ℤ}
use micro_kernel.Console.{Run, pure, ◌>>=◌}
use micro_kernel.Pmm.Multiboot.{Memory}
use micro_kernel.Core.Printf.{int}
use micro_kernel.Core.Printf.Call.{shell_printf}
use micro_kernel.Core.Printf.Render.{lit}
use micro_kernel.Core.Hexdump.{end_line, begin_line, fill, fill_rest}
use micro_kernel.Core.Hexdump.Rows.{
  chars, heading, ending, padding, Prints, then-Prints, as_text, pieces-Prints, end_line-Prints,
  heading-Prints,
}
use micro_kernel.Core.Hexdump.Loop.{length-chars, chars-IsText}

-- What follows the loop.
abbrev pub finish : ℕ → Bytes → Run ℤ
finish len a = fill_rest len a >>= λ a'. (end_line a' >>= λ _. pure (pos 0))

abbrev end_full : Bytes → Run ℤ
end_full a = end_line a >>= λ _. pure (pos 0)

spaces-IsText : (n : ℕ) → IsText (replicate n b' ')
spaces-IsText zero = tt
spaces-IsText (suc n) = (omega arith, spaces-IsText n)

fill-Prints :
    (n i : ℕ) (xs us ys : Bytes)
    → length xs ≡ i
    → length us ≡ n
    → Prints (fill n i (xs ++ (us ++ ys))) (padding n) (xs ++ (replicate n b' ' ++ ys))
unfolding fill padding
fill-Prints zero i xs [] ys size_x size = ([], refl, refl)
fill-Prints zero i xs (u ∷ us) ys size_x size = absurd (omega arith)
fill-Prints (suc n) i xs [] ys size_x size = absurd (omega arith)
fill-Prints (suc n) i xs (u ∷ us) ys size_x size =
    let later =
      fill-Prints n (i + 1) (xs ++ b' ' ∷ []) us ys (omega (arith, length-append xs (b' ' ∷ [])))
        (omega arith) in
    let moved = append_assoc xs (b' ' ∷ []) (us ++ ys) in
    let later' =
      subst
        (λ z. Prints (fill n (i + 1) z) (padding n) ((xs ++ b' ' ∷ []) ++ (replicate n b' ' ++ ys)))
        moved later in
    let later'' =
      subst (λ z. Prints (fill n (i + 1) (xs ++ b' ' ∷ (us ++ ys))) (padding n) z)
        (append_assoc xs (b' ' ∷ []) (replicate n b' ' ++ ys)) later' in
    let stored = store-middle xs i u b' ' (us ++ ys) (sym size_x) in
    then-Prints (shell_printf (literal "   ") []) _ (codes "   ") (padding n) tt _
      (pieces-Prints (lit (codes "   ") ∷ []) (omega arith) (omega arith))
      (rw stored (
        then-Prints (pure (xs ++ b' ' ∷ (us ++ ys))) (λ a. fill n (i + 1) a) [] (padding n) _ _
          ([], refl, refl) later''))

module _ (m : Memory) (addr len : ℕ) where
  -- The last line ends, where it is full and where it is not.
  pub full_ends :
      (s : ℕ)
      → len % 16 ≡ 0
      → Prints (finish len (chars m addr 16 s ++ 0 ∷ [])) (ending (chars m addr 16 s)) (pos 0)
  unfolding fill_rest
  full_ends s h =
      let t = chars m addr 16 s in
      let full : (len % 16 == 0) ≡ true = ground arith in
      let shown =
        end_line-Prints t [] (chars-IsText m addr 16 s) (omega (arith, length-chars m addr 16 s)) in
      rw full (
        then-Prints (pure (t ++ 0 ∷ [])) end_full [] (ending t) (t ++ 0 ∷ []) (pos 0)
          ([], refl, refl)
          (as_text _ (ending t ++ []) (ending t) (pos 0)
            (then-Prints (end_line (t ++ 0 ∷ [])) (λ _. pure (pos 0)) (ending t) [] tt (pos 0) shown
              ([], refl, refl))
            (append-nil (ending t))))

  pub part_ends :
      (n s : ℕ) (us : Bytes)
      → len % 16 ≡ n
      → 0 < n
      → length us ≡ 16 - n
      → Prints
          (finish len (chars m addr n s ++ (us ++ 0 ∷ [])))
          (padding (16 - n) ++ ending (chars m addr n s ++ replicate (16 - n) b' '))
          (pos 0)
  unfolding fill_rest
  part_ends n s us h positive size =
      let t = chars m addr n s ++ replicate (16 - n) b' ' in
      let not_full : (len % 16 == 0) ≡ false = ground arith in
      let is_text : IsText t =
        All-append _ (chars m addr n s) _ (chars-IsText m addr n s) (spaces-IsText (16 - n)) in
      let short : length t ≤ 16 = omega (
        arith,
        length-append (chars m addr n s) (replicate (16 - n) b' '),
        length-chars m addr n s,
        length-replicate {A = ℕ} (16 - n) b' ',
      ) in
      let filled =
        fill-Prints (16 - n) n (chars m addr n s) us (0 ∷ []) (length-chars m addr n s) size in
      let filled' =
        subst
          (λ z. Prints (fill (16 - n) n (chars m addr n s ++ (us ++ 0 ∷ []))) (padding (16 - n)) z)
          (sym (append_assoc (chars m addr n s) (replicate (16 - n) b' ') (0 ∷ []))) filled in
      let shown = end_line-Prints t [] is_text short in
      rw (not_full, h)
        (then-Prints (fill (16 - n) n (chars m addr n s ++ (us ++ 0 ∷ []))) _ (padding (16 - n))
          (ending t) (t ++ 0 ∷ []) (pos 0) filled'
          (as_text _ (ending t ++ []) (ending t) (pos 0)
            (then-Prints (end_line (t ++ 0 ∷ [])) (λ _. pure (pos 0)) (ending t) [] tt (pos 0) shown
              ([], refl, refl))
            (append-nil (ending t))))

  pub starts : (s : ℕ) (a : Bytes) → s ≡ 0 → Prints (begin_line addr s a) (heading addr s) tt
  unfolding begin_line
  starts s a h =
      let row_begins : (s % 16 == 0) ≡ true = ground arith in
      let first : ltb 0 s ≡ false = ground arith in
      rw (row_begins, first)
        (then-Prints (pure tt) (λ _. shell_printf (literal "0x%08x: ") (int (u32 (addr + s)) ∷ []))
          [] (heading addr s) tt tt ([], refl, refl) (heading-Prints addr s))

  pub follows :
      (s : ℕ) (t : Bytes)
      → 0 < s
      → s % 16 ≡ 0
      → IsText t
      → length t ≤ 16
      → Prints (begin_line addr s (t ++ 0 ∷ [])) (ending t ++ heading addr s) tt
  unfolding begin_line
  follows s t positive h is_text short =
      let row_begins : (s % 16 == 0) ≡ true = ground arith in
      let later : ltb 0 s ≡ true = ground arith in
      rw (row_begins, later)
        (then-Prints (end_line (t ++ 0 ∷ [])) _ (ending t) (heading addr s) tt tt
          (end_line-Prints t [] is_text short) (heading-Prints addr s))
