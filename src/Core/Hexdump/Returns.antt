-- ===== src/Core/Hexdump/Returns.antt =====
-- `hexdump` always returns.
use micro_kernel.Base.{
  ℕ, zero, suc, ◌+◌, ◌-◌, ◌%◌, ◌^◌, ◌≤◌, ◌<◌, ◌≡◌, ◌≢◌, refl, ap, ◌∙◌, ◌==◌, ltb, if◌then◌else◌,
  Bool-cases, inl, inr, List, [], ◌∷◌, ◌++◌, some, arith, get_or, get_or-set_ne, get_or-set_self,
  false, set, length-set, store, store-eq-set, length, u32, Bytes, IsText, All, codes, literal,
}
use micro_kernel.Base.Int.{pos}
use micro_kernel.Console.{Trace, Run, write_vga_at, here, returned, pure, ◌>>=◌, lift}
use micro_kernel.Console.Laws.{after-nil}
use micro_kernel.Pmm.Multiboot.{Memory, read_u8}
use micro_kernel.Core.Atoi.{atoi-decimal, signed}
use micro_kernel.Core.Printf.{int}
use micro_kernel.Core.Printf.Call.{shell_printf, shell_printf-shown}
use micro_kernel.Core.Printf.Number.{decimal}
use micro_kernel.Core.Printf.HexText.{length-hex_text}
use micro_kernel.Core.Printf.Render.{
  Piece, lit, hexa_02, hexa_08, text, IsPiece, shown_all, length-shown_all, spelled_all, passed_all,
}
use micro_kernel.Core.Hexdump.{
  to_u32, ascii_char, end_line, begin_line, dump, fill, fill_rest, dump_range, cmd_hexdump,
}

-- A run that returns a result with a property.
abbrev pub Returns {ℓ} : {A : Type ℓ} → Run A → (A → Type 0) → Type ℓ
Returns {A = A} r P = (t : Trace) × (a : A) × (r ≡ returned t a) × P a

then-Returns :
    {A B : Type 0} (r : Run A) (f : A → Run B) (P : A → Type 0) (Q : B → Type 0)
    → Returns r P
    → ((a : A) → P a → Returns (f a) Q)
    → Returns (r >>= f) Q
then-Returns r f P Q (t, a, e, p) next =
    let (u, b, e', q) = next a p in (t ++ u, b, rw (e, e') refl, q)

abbrev Any : {A : Type 0} → A → Type 0
Any a = Unit

-- The text buffer: 17 bytes, of which the last is the terminator.
abbrev IsBuffer : Bytes → Type 0
IsBuffer a = (length a ≡ 17) × (get_or a 16 1 ≡ 0)

buffer-IsText :
    (a : Bytes) (n : ℕ)
    → get_or a n 1 ≡ 0
    → (t rest : Bytes) × (a ≡ t ++ 0 ∷ rest) × IsText t × (length t ≤ n)
buffer-IsText [] n h = absurd (omega arith)
buffer-IsText (c ∷ a) zero h = ([], a, ap (λ x. x ∷ a) h, tt, omega arith)
buffer-IsText (c ∷ a) (suc n) h = elim (Bool-cases (c == 0)) [
  | inl e ↦
      let zero_first : c ≡ 0 = ground arith in ([], a, ap (λ x. x ∷ a) zero_first, tt, omega arith)
  | inr e ↦
      let (t, rest, same, is_text, short) = buffer-IsText a n h in
      (c ∷ t, rest, ap (λ l. c ∷ l) same, (ground arith, is_text), omega arith)
]

pieces-Returns :
    (ps : List Piece)
    → All IsPiece ps
    → length (shown_all ps) ≤ 510
    → Returns (shell_printf (spelled_all ps ++ 0 ∷ []) (passed_all ps)) Any
pieces-Returns ps h room =
    (write_vga_at (shown_all ps) here here 0x07 ∷ [], tt, shell_printf-shown ps h room, tt)

end_line-Returns : (a : Bytes) → IsBuffer a → Returns (end_line a) Any
unfolding end_line
end_line-Returns a (size, last) =
    let (t, rest, same, h, short) = buffer-IsText a 16 last in
    let ps = lit (codes "  |") ∷ text t rest ∷ lit (codes "|\n") ∷ [] in
    let pieces : All IsPiece ps = (omega arith, (h, (omega arith, tt))) in
    let room : length (shown_all ps) ≤ 510 = omega (arith, length-shown_all ps, short) in
    rw same (pieces-Returns ps pieces room)

begin_line-Returns : (addr i : ℕ) (a : Bytes) → IsBuffer a → Returns (begin_line addr i a) Any
unfolding begin_line
begin_line-Returns addr i a h = elim (Bool-cases (i % 16 == 0)) [
  | inl e ↦
      let ps = lit (codes "0x") ∷ hexa_08 (u32 (addr + i)) ∷ lit (codes ": ") ∷ [] in
      let pieces : All IsPiece ps = (omega arith, (omega arith, (omega arith, tt))) in
      let room : length (shown_all ps) ≤ 510 =
        omega (arith, length-shown_all ps, length-hex_text 8 (u32 (addr + i))) in
      rw e (
        then-Returns (if ltb 0 i then end_line a else pure tt)
          (λ _. shell_printf (literal "0x%08x: ") (int (u32 (addr + i)) ∷ [])) Any Any
          (elim (Bool-cases (ltb 0 i)) [
            | inl q ↦ rw q (end_line-Returns a h)
            | inr q ↦ rw q ([], tt, refl, tt)
          ])
          (λ _ _. pieces-Returns ps pieces room))
  | inr e ↦ rw e ([], tt, refl, tt)
]

store-Buffer : (a : Bytes) (i v : ℕ) → i < 16 → IsBuffer a → Returns (lift (store a i v)) IsBuffer
store-Buffer a i v hi (size, last) =
    rw (store-eq-set a i v (omega arith)) (
      [],
      set a i v,
      refl,
      (length-set a i v ∙ size, get_or-set_ne a i 16 v 1 (omega arith) ∙ last),
    )

dump-Returns :
    (left i : ℕ) (m : Memory) (addr : ℕ) (a : Bytes)
    → IsBuffer a
    → Returns (dump left i m addr a) IsBuffer
unfolding dump
dump-Returns zero i m addr a h = ([], a, refl, h)
dump-Returns (suc left) i m addr a h =
    let b = read_u8 m (addr + i) in
    let byte : b < 256 = unfold read_u8 in omega arith in
    let ps = hexa_02 b ∷ lit (codes " ") ∷ [] in
    let pieces : All IsPiece ps = (omega arith, (omega arith, tt)) in
    let room : length (shown_all ps) ≤ 510 =
      omega (arith, length-shown_all ps, length-hex_text 8 b) in
    then-Returns (begin_line addr i a) _ Any IsBuffer (begin_line-Returns addr i a h) (λ _ _.
      then-Returns (shell_printf (literal "%02x ") (int b ∷ [])) _ Any IsBuffer
        (pieces-Returns ps pieces room)
        (λ _ _.
          then-Returns (lift (store a (i % 16) (ascii_char b))) (λ a'. dump left (i + 1) m addr a')
            IsBuffer IsBuffer (store-Buffer a (i % 16) (ascii_char b) (omega arith) h)
            (λ a' h'. dump-Returns left (i + 1) m addr a' h')))

fill-Returns :
    (left i : ℕ) (a : Bytes) → i + left ≤ 16 → IsBuffer a → Returns (fill left i a) IsBuffer
unfolding fill
fill-Returns zero i a room h = ([], a, refl, h)
fill-Returns (suc left) i a room h =
    then-Returns (shell_printf (literal "   ") []) _ Any IsBuffer
      (pieces-Returns (lit (codes "   ") ∷ []) (omega arith) (omega arith))
      (λ _ _.
        then-Returns (lift (store a i b' ')) (λ a'. fill left (i + 1) a') IsBuffer IsBuffer
          (store-Buffer a i b' ' (omega arith) h)
          (λ a' h'. fill-Returns left (i + 1) a' (omega arith) h'))

fill_rest-Returns : (len : ℕ) (a : Bytes) → IsBuffer a → Returns (fill_rest len a) IsBuffer
unfolding fill_rest
fill_rest-Returns len a h = elim (Bool-cases (len % 16 == 0)) [
  | inl e ↦ rw e ([], a, refl, h)
  | inr e ↦ rw e (fill-Returns (16 - len % 16) (len % 16) a (omega arith) h)
]

dump_range-Returns :
    (m : Memory) (addr len : ℕ) (a : Bytes)
    → length a ≡ 17
    → Returns (dump_range m addr len a) (λ z. z ≡ pos 0)
unfolding dump_range
dump_range-Returns m addr len a size =
    let a₁ = set a 16 0 in
    let h₁ : IsBuffer a₁ = (length-set a 16 0 ∙ size, get_or-set_self a 16 0 1 (omega arith)) in
    rw (store-eq-set a 16 0 (omega arith)) (
      then-Returns (lift (some a₁)) _ IsBuffer (λ z. z ≡ pos 0) ([], a₁, refl, h₁)
        (λ a₁' h₁'.
          then-Returns (dump len 0 m addr a₁') _ IsBuffer (λ z. z ≡ pos 0)
            (dump-Returns len 0 m addr a₁' h₁')
            (λ a₂ h₂.
              then-Returns (fill_rest len a₂) _ IsBuffer (λ z. z ≡ pos 0)
                (fill_rest-Returns len a₂ h₂)
                (λ a₃ h₃.
                  then-Returns (end_line a₃) (λ _. pure (pos 0)) Any (λ z. z ≡ pos 0)
                    (end_line-Returns a₃ h₃) (λ _ _. ([], pos 0, refl, refl))))))

to_u32-signed : (v : ℕ) → v < 2 ^ 32 → to_u32 (signed v) ≡ v
to_u32-signed v h = ground arith

-- With two arguments that are the decimal texts of ints (the least one excepted), and whatever
-- other arguments follow, the command dumps the range whose address and length the ints are as
-- unsigned numbers; and this dump returns 0 for each memory, each address and each length,
-- whatever the array of 17 bytes holds at first: no store leaves the array, and each text that is
-- printed ends within it.
pub cmd_hexdump-Returns :
    (m : Memory) (ascii_buf name rest rest' : Bytes) (addr len : ℕ) (more : List Bytes)
    → length ascii_buf ≡ 17
    → (addr < 2 ^ 32) × (addr ≢ 2 ^ 31)
    → (len < 2 ^ 32) × (len ≢ 2 ^ 31)
    → (cmd_hexdump m ascii_buf
          (name ∷ (decimal addr ++ 0 ∷ rest) ∷ (decimal len ++ 0 ∷ rest') ∷ more)
        ≡ dump_range m addr len ascii_buf)
      × Returns (dump_range m addr len ascii_buf) (λ z. z ≡ pos 0)
unfolding cmd_hexdump
cmd_hexdump-Returns m ascii_buf name rest rest' addr len more size (ha, na) (hl, nl) =
    let enough : ltb
          (length {A = Bytes}
            (name ∷ (decimal addr ++ 0 ∷ rest) ∷ (decimal len ++ 0 ∷ rest') ∷ more))
          3
        ≡ false =
      ground arith in
    (
      rw
          (
            enough,
            atoi-decimal addr rest ha na,
            atoi-decimal len rest' hl nl,
            to_u32-signed addr ha,
            to_u32-signed len hl,
            after-nil,
            after-nil,
            after-nil,
            after-nil,
          )
          refl,
      dump_range-Returns m addr len ascii_buf size,
    )
