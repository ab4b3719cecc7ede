-- ===== src/Core/Panic/Text.antt =====
-- The panic screen's printing of texts and numbers.
use micro_kernel.Base.{
  ℕ, suc, ◌+◌, ◌-◌, ◌*◌, ◌≤◌, ◌<◌, ◌≡◌, ◌≢◌, refl, ap, subst, ◌∙◌, ◌==◌, ltb, leb, ◌||◌,
  if◌then◌else◌, Bool-cases, inl, inr, false, [], ◌∷◌, ◌++◌, Option, some, arith, bit_or, get_or,
  store-eq-set, set, get_or-set_self, get_or-set_ne, length-set, length, u16, Bytes, ◌<<<◌, IsText,
  All, ◌&&◌,
}
use micro_kernel.Core.Panic.{
  Screen, widen, panic_vga_print_char, Place, next_place, print_one, print_from,
  panic_vga_print_str, print,
}

-- A step that is defined, and leaves a screen of the same size with its first `k` cells as they
-- were.
abbrev pub Fits : ℕ → Option Screen → Screen → Type 0
Fits k r s =
    (s' : Screen) × (r ≡ some s')
    × (length s' ≡ length s)
    × ((i : ℕ) → i < k → get_or s' i 0 ≡ get_or s i 0)

abbrev pub cells : ℕ
cells = 2000

pub print_char-Fits :
    (k c x y attr : ℕ) (s : Screen)
    → k ≤ y * 80
    → length s ≡ cells
    → Fits k (panic_vga_print_char c x y attr s) s
unfolding panic_vga_print_char
print_char-Fits k c x y attr s below h = elim (Bool-cases (leb 80 x || leb 25 y)) [
  | inl e ↦ rw e (s, refl, refl, λ i b. refl)
  | inr e ↦
      let v = bit_or (widen c) (u16 (attr <<< 8)) in
      rw e (
        set s (y * 80 + x) v,
        store-eq-set s (y * 80 + x) v (ground arith),
        length-set s (y * 80 + x) v,
        λ i b. get_or-set_ne s (y * 80 + x) i v 0 (omega arith),
      )
]

-- A place in the row `k / 80` or below.
abbrev IsBelow : ℕ → Place → Type 0
IsBelow k (x, y) = k ≤ y * 80

next_place-IsBelow : (k start x y : ℕ) → k ≤ y * 80 → IsBelow k (next_place start (x, y))
next_place-IsBelow k start x y h = elim (Bool-cases (leb 80 (x + 1))) [
  | inl e ↦ rw e (omega arith)
  | inr e ↦ rw e h
]

print_one-Fits :
    (k c start : ℕ) (p : Place) (attr : ℕ) (s : Screen)
    → IsBelow k p
    → length s ≡ cells
    → (q : Place) × IsBelow k q
      × (s' : Screen) × (print_one c start p attr s ≡ some (q, s'))
      × (length s' ≡ length s)
      × ((i : ℕ) → i < k → get_or s' i 0 ≡ get_or s i 0)
unfolding print_one
print_one-Fits k c start (x, y) attr s below h = elim (Bool-cases (c == b'\n')) [
  | inl e ↦ rw e ((start, y + 1), omega arith, s, refl, refl, λ i b. refl)
  | inr e ↦
      let (s', printed, size, same) = print_char-Fits k c x y attr s below h in
      rw (e, printed)
        (next_place start (x, y), next_place-IsBelow k start x y below, s', refl, size, same)
]

-- A text of any length, from any place on: the printing stops at the terminator.
print_from-Fits :
    (k : ℕ) (t rest : Bytes) (start : ℕ) (p : Place) (attr : ℕ) (s : Screen)
    → IsText t
    → IsBelow k p
    → length s ≡ cells
    → (x : ℕ) × (s' : Screen) × (print_from (t ++ 0 ∷ rest) start p attr s ≡ some (x, s'))
      × (length s' ≡ length s)
      × ((i : ℕ) → i < k → get_or s' i 0 ≡ get_or s i 0)
unfolding print_from
print_from-Fits k [] rest start (x, y) attr s h below size = (x, s, refl, refl, λ i b. refl)
print_from-Fits k (c ∷ t) rest start (x, y) attr s (hc, h) below size =
    let (q, below', s₁, one, size₁, same₁) = print_one-Fits k c start (x, y) attr s below size in
    let (x', s', more, size', same') =
      print_from-Fits k t rest start q attr s₁ h below' (size₁ ∙ size) in
    let goes_on : (c == 0) ≡ false = ground arith in
    rw (goes_on, one, more) (x', s', refl, size' ∙ size₁, λ i b. same' i b ∙ same₁ i b)

pub print-Fits :
    (k : ℕ) (t rest : Bytes) (x y attr : ℕ) (s : Screen)
    → IsText t
    → k ≤ y * 80
    → length s ≡ cells
    → Fits k (print (t ++ 0 ∷ rest) x y attr s) s
unfolding panic_vga_print_str
print-Fits k t rest x y attr s h below size =
    let (x', s', e, size', same) = print_from-Fits k t rest x (x, y) attr s h below size in
    rw e (s', refl, size', same)

-- The character's cell in the colours.
abbrev pub glyph : ℕ → ℕ → ℕ
glyph c attr = bit_or (widen c) (u16 (attr <<< 8))

-- The screen shows a text in the row, and is as before elsewhere.
abbrev pub Shows : Bytes → ℕ → ℕ → Screen → Screen → Type 0
Shows t at attr s s' =
    (k : ℕ)
    → get_or s' k 0 ≡ (
        if leb at k && ltb k (at + length t)
        then glyph (get_or t (k - at) 0) attr
        else get_or s k 0)

-- The bytes that are shown as they stand: neither the terminator nor a line break.
abbrev pub IsLine : Bytes → Type 0
IsLine = All (λ c. (c ≢ 0) × (c ≢ b'\n'))

first_char :
    (c : ℕ) (msg : Bytes) (start x y attr : ℕ) (s : Screen)
    → (c ≢ 0) × (c ≢ b'\n')
    → length s ≡ cells
    → y < 25
    → x < 80
    → print_from (c ∷ msg) start (x, y) attr s
      ≡ print_from msg start (next_place start (x, y)) attr (set s (y * 80 + x) (glyph c attr))
unfolding print_from print_one panic_vga_print_char
first_char c msg start x y attr s (hc, hn) size hy hx =
    let goes_on : (c == 0) ≡ false = ground arith in
    let no_break : (c == b'\n') ≡ false = ground arith in
    let inside : (leb 80 x || leb 25 y) ≡ false = ground arith in
    rw (goes_on, no_break, inside, store-eq-set s (y * 80 + x) (glyph c attr) (omega arith)) refl

get_or-later :
    (c : ℕ) (t : Bytes) (at k : ℕ)
    → at < k
    → get_or {A = ℕ} (c ∷ t) (k - at) 0 ≡ get_or t (k - (at + 1)) 0
get_or-later c t at k h = let next : k - at ≡ suc (k - (at + 1)) = omega arith in rw next refl

get_or-first : (c : ℕ) (t : Bytes) (at k : ℕ) → at ≡ k → get_or {A = ℕ} (c ∷ t) (k - at) 0 ≡ c
get_or-first c t at k h = let none_left : k - at ≡ 0 = omega arith in rw none_left refl

-- A first character, then the rest.
Shows-cons :
    (c : ℕ) (t : Bytes) (at attr : ℕ) (s s' : Screen)
    → at < length s
    → Shows t (at + 1) attr (set s at (glyph c attr)) s'
    → Shows (c ∷ t) at attr s s'
Shows-cons c t at attr s s' h shows k = ground (
  arith,
  shows k,
  get_or-set_self s at (glyph c attr) 0 h,
  get_or-set_ne s at k (glyph c attr) 0,
  get_or-later c t at k,
  get_or-first c t at k,
)

pub print_line :
    (t rest : Bytes) (start x y attr : ℕ) (s : Screen)
    → IsLine t
    → length s ≡ cells
    → y < 25
    → x + length t ≤ 80
    → (x' : ℕ) × (s' : Screen) × (print_from (t ++ 0 ∷ rest) start (x, y) attr s ≡ some (x', s'))
      × (length s' ≡ length s)
      × Shows t (y * 80 + x) attr s s'
unfolding print_from
print_line [] rest start x y attr s h size hy hx = (x, s, refl, refl, λ k. ground arith)
print_line (c ∷ []) rest start x y attr s (hc, h) size hy hx =
    let s₁ = set s (y * 80 + x) (glyph c attr) in
    (
      _,
      s₁,
      first_char c (0 ∷ rest) start x y attr s hc size hy (omega arith),
      length-set s (y * 80 + x) (glyph c attr),
      Shows-cons c [] (y * 80 + x) attr s s₁ (omega arith) (λ k. ground arith),
    )
print_line (c ∷ (d ∷ t)) rest start x y attr s (hc, h) size hy hx =
    let s₁ = set s (y * 80 + x) (glyph c attr) in
    let size₁ = length-set s (y * 80 + x) (glyph c attr) in
    let stays : next_place start (x, y) ≡ (x + 1, y) = ground arith in
    let more = print_line (d ∷ t) rest start (x + 1) y attr s₁ h (size₁ ∙ size) hy (omega arith) in
    (
      more.0,
      more.1,
      first_char c (d ∷ (t ++ 0 ∷ rest)) start x y attr s hc size hy (omega arith)
          ∙ ap (λ p. print_from (d ∷ (t ++ 0 ∷ rest)) start p attr s₁) stays
          ∙ more.2,
      more.3 ∙ size₁,
      Shows-cons c (d ∷ t) (y * 80 + x) attr s more.1 (omega arith)
          (subst (λ at. Shows (d ∷ t) at attr s₁ more.1) (omega arith) more.4),
    )
