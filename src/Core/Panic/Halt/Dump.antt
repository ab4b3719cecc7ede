-- ===== src/Core/Panic/Halt/Dump.antt =====
-- What stays on the screen of the registers.
use micro_kernel.Base.{
  ℕ, ◌+◌, ◌*◌, ◌≤◌, ◌<◌, ◌≡◌, refl, ◌∙◌, List, [], ◌∷◌, ◌++◌, Option, some, ◌>>=◌, arith, length,
  get_or, Bytes, codes, literal,
}
use micro_kernel.Core.Panic.{Screen, print, panic_vga_print_str, panic_vga_print_hex}
use micro_kernel.Core.Panic.Text.{cells, Shows, glyph, print_line, IsLine}
use micro_kernel.Core.Panic.Hex.{hex_digits-report, report, report-IsLine}
use micro_kernel.Core.Panic.Halt.{Registers, print_register, register_dump}
use micro_kernel.Core.Panic.Halt.Steps.{Draws, text-Draws, chain, chain-Draws, register-Draws}
use micro_kernel.Core.Panic.Halt.Ends.{Shows-at}

-- A number's report stands in the cells from a place on.
abbrev pub Reports : ℕ → ℕ → Screen → Type 0
Reports n at s = (i : ℕ) → i < 10 → get_or s (at + i) 0 ≡ glyph (get_or (report n) i 0) 0x0F

-- The cells before a place are as they were.
abbrev pub Keeps : ℕ → Screen → Screen → Type 0
Keeps at s s' = (p : ℕ) → p < at → get_or s' p 0 ≡ get_or s p 0

-- What holds of a screen still holds when nothing before a place has changed.
abbrev pub Kept : ℕ → (Screen → Type 0) → Type 0
Kept at P = (s s' : Screen) → P s → Keeps at s s' → P s'

pub kept-Reports : (n at k : ℕ) → at + 10 ≤ k → Kept k (Reports n at)
kept-Reports n at k below s s' h keeps i b = keeps (at + i) (omega arith) ∙ h i b

pub kept_both : (k : ℕ) (P Q : Screen → Type 0) → Kept k P → Kept k Q → Kept k (λ s. (P s) × Q s)
kept_both k P Q p q s s' (hp, hq) keeps = (p s s' hp keeps, q s s' hq keeps)

-- A step ends on a screen of the full size of which something holds.
abbrev pub Ends : (Screen → Option Screen) → Screen → (Screen → Type 0) → Type 0
Ends f s P = (s' : Screen) × (f s ≡ some s') × (length s' ≡ cells) × P s'

pub then_ends :
    (f g : Screen → Option Screen) (P Q : Screen → Type 0) (s : Screen)
    → Ends f s P
    → ((s' : Screen) → length s' ≡ cells → P s' → Ends g s' Q)
    → Ends (λ s'. f s' >>= g) s Q
then_ends f g P Q s (s₁, e, size, h) more =
    let (s₂, e', size', h') = more s₁ size h in (s₂, rw e e', size', h')

-- A step that draws behind a place keeps what holds before it.
pub draws_on :
    (k : ℕ) (f : Screen → Option Screen) (P : Screen → Type 0) (s : Screen)
    → Draws k f
    → Kept k P
    → length s ≡ cells
    → P s
    → Ends f s P
draws_on k f P s draws kept size h =
    let (s', e, size', keeps) = draws s size in (s', e, size' ∙ size, kept s s' h keeps)

pub Shows-Keeps : (t : Bytes) (at attr : ℕ) (s s' : Screen) → Shows t at attr s s' → Keeps at s s'
Shows-Keeps t at attr s s' h p b = ground (arith, h p)

register_shown :
    (name rest : Bytes) (x n x_n y attr : ℕ) (P : Screen → Type 0) (s : Screen)
    → IsLine name
    → y < 25
    → x + length name ≤ x_n
    → x_n ≤ 70
    → Kept (y * 80 + x) P
    → length s ≡ cells
    → P s
    → Ends
        (print_register (name ++ 0 ∷ rest) x n x_n y attr)
        s
        (λ s'. (P s') × Reports n (y * 80 + x_n) s')
unfolding print_register panic_vga_print_str panic_vga_print_hex
register_shown name rest x n x_n y attr P s h row fits right kept size held =
    let (_, s₁, e₁, n₁, shows₁) = print_line name rest x x y attr s h size row (omega arith) in
    let (_, s₂, e₂, n₂, shows₂) =
      print_line (report n) [] x_n x_n y 0x0F s₁ (report-IsLine n) (n₁ ∙ size) row (omega arith) in
    (
      s₂,
      rw (e₁, hex_digits-report n, e₂) refl,
      n₂ ∙ n₁ ∙ size,
      (
        kept s s₂ held (λ p b.
            Shows-Keeps (report n) (y * 80 + x_n) 0x0F s₁ s₂ shows₂ p (omega arith)
            ∙ Shows-Keeps name (y * 80 + x) attr s s₁ shows₁ p b),
        λ i b. Shows-at (report n) (y * 80 + x_n) 0x0F s₁ s₂ i shows₂ b,
      ),
    )

abbrev last_rows : Registers → List (Screen → Option Screen)
last_rows r =
    print_register (literal "esi:") 4 r.esi 9 8 0x0E
    ∷ print_register (literal "edi:") 24 r.edi 29 8 0x0E
    ∷ print_register (literal "ebp:") 44 r.ebp 49 8 0x0E
    ∷ print_register (literal "esp:") 64 r.esp 69 8 0x0E
    ∷ print_register (literal "eip:") 4 r.eip 9 10 0x0C
    ∷ print_register (literal "cs:") 24 r.cs 29 10 0x0C
    ∷ print_register (literal "eflags:") 44 r.eflags 52 10 0x0C
    ∷ []

last_rows-Draws : (r : Registers) → Draws 640 (chain (last_rows r))
last_rows-Draws r = chain-Draws 640 (last_rows r) (
  register-Draws 640 (codes "esi:") [] 4 r.esi 9 8 0x0E (omega arith) (omega arith),
  (
    register-Draws 640 (codes "edi:") [] 24 r.edi 29 8 0x0E (omega arith) (omega arith),
    (
      register-Draws 640 (codes "ebp:") [] 44 r.ebp 49 8 0x0E (omega arith) (omega arith),
      (
        register-Draws 640 (codes "esp:") [] 64 r.esp 69 8 0x0E (omega arith) (omega arith),
        (
          register-Draws 640 (codes "eip:") [] 4 r.eip 9 10 0x0C (omega arith) (omega arith),
          (
            register-Draws 640 (codes "cs:") [] 24 r.cs 29 10 0x0C (omega arith) (omega arith),
            (
              register-Draws 640 (codes "eflags:") [] 44 r.eflags 52 10 0x0C (omega arith)
                  (omega arith),
              tt,
            ),
          ),
        ),
      ),
    ),
  ),
)

-- The numbers in the row 7, one after the other.
abbrev pub One : Registers → Screen → Type 0
One r s = Reports r.eax (7 * 80 + 9) s

abbrev pub Two : Registers → Screen → Type 0
Two r s = (One r s) × Reports r.ebx (7 * 80 + 29) s

abbrev pub Three : Registers → Screen → Type 0
Three r s = (Two r s) × Reports r.ecx (7 * 80 + 49) s

abbrev pub Four : Registers → Screen → Type 0
Four r s = (Three r s) × Reports r.edx (7 * 80 + 69) s

kept-One : (r : Registers) (k : ℕ) → 584 ≤ k → Kept k (One r)
kept-One r k h = kept-Reports r.eax (7 * 80 + 9) k (omega arith)

kept-Two : (r : Registers) (k : ℕ) → 604 ≤ k → Kept k (Two r)
kept-Two r k h =
    kept_both k (One r) (Reports r.ebx (7 * 80 + 29)) (kept-One r k (omega arith))
      (kept-Reports r.ebx (7 * 80 + 29) k (omega arith))

kept-Three : (r : Registers) (k : ℕ) → 624 ≤ k → Kept k (Three r)
kept-Three r k h =
    kept_both k (Two r) (Reports r.ecx (7 * 80 + 49)) (kept-Two r k (omega arith))
      (kept-Reports r.ecx (7 * 80 + 49) k (omega arith))

pub kept-Four : (r : Registers) (k : ℕ) → 640 ≤ k → Kept k (Four r)
kept-Four r k h =
    kept_both k (Three r) (Reports r.edx (7 * 80 + 69)) (kept-Three r k (omega arith))
      (kept-Reports r.edx (7 * 80 + 69) k (omega arith))

pub dump_shown : (r : Registers) (s : Screen) → length s ≡ cells → Ends (register_dump r) s (Four r)
unfolding register_dump
dump_shown r s size =
    then_ends (print (literal "register dump:") 2 6 0x0C) _ (λ _. Unit {0}) (Four r) s
      (draws_on 0 _ (λ _. Unit {0}) s
        (text-Draws 0 (codes "register dump:") [] 2 6 0x0C (omega arith) (omega arith))
        (λ _ _ _ _. tt) size tt)
      (λ s₁ size₁ _.
        then_ends (print_register (literal "eax:") 4 r.eax 9 7 0x0E) _ (λ s'. (Unit {0}) × One r s')
          (Four r) s₁
          (register_shown (codes "eax:") [] 4 r.eax 9 7 0x0E (λ _. Unit {0}) s₁ (omega arith)
            (omega arith) (omega arith) (omega arith) (λ _ _ _ _. tt) size₁ tt)
          (λ s₂ size₂ h₂.
            then_ends (print_register (literal "ebx:") 24 r.ebx 29 7 0x0E) _ (Two r) (Four r) s₂
              (register_shown (codes "ebx:") [] 24 r.ebx 29 7 0x0E (One r) s₂ (omega arith)
                (omega arith) (omega arith) (omega arith) (kept-One r 584 (omega arith)) size₂ h₂.1)
              (λ s₃ size₃ h₃.
                then_ends (print_register (literal "ecx:") 44 r.ecx 49 7 0x0E) _ (Three r) (Four r)
                  s₃
                  (register_shown (codes "ecx:") [] 44 r.ecx 49 7 0x0E (Two r) s₃ (omega arith)
                    (omega arith) (omega arith) (omega arith) (kept-Two r 604 (omega arith)) size₃
                    h₃)
                  (λ s₄ size₄ h₄.
                    then_ends (print_register (literal "edx:") 64 r.edx 69 7 0x0E)
                      (chain (last_rows r)) (Four r) (Four r) s₄
                      (register_shown (codes "edx:") [] 64 r.edx 69 7 0x0E (Three r) s₄
                        (omega arith) (omega arith) (omega arith) (omega arith)
                        (kept-Three r 624 (omega arith)) size₄ h₄)
                      (λ s₅ size₅ h₅.
                        draws_on 640 (chain (last_rows r)) (Four r) s₅ (last_rows-Draws r)
                          (kept-Four r 640 (omega arith)) size₅ h₅)))))
