-- ===== src/Imperium/Vga/Char.antt =====
-- The three branches of `vga_print_char`.
use micro_kernel.Base.{
  ltb→lt, ltb→le, ℕ, ◌+◌, ◌-◌, ◌*◌, ◌/◌, ◌%◌, ◌^◌, ◌≤◌, ◌<◌, ◌≡◌, refl, subst, ◌∙◌, true, false,
  List, [], ◌++◌, ◌==◌, ltb, if◌then◌else◌, u32, arith, Bool-cases, inl, inr,
}
use micro_kernel.Console.{returned}
use micro_kernel.Imperium.Vga.{Vga, less, width, put, handle_newline, handle_backspace, print}
use micro_kernel.Imperium.Vga.Tape.{Tape, stray, Shows, IsWindow, put_lem, next_row}

-- Where only the column and the bytes outside change, the screen shows what it showed.
same_shown :
    (s : Vga) (x attribute row : ℕ) (o : List (ℕ × ℕ)) (cell : ℕ → ℕ)
    → Shows s attribute row cell
    → Shows (record s { cursor_x = x; outside = o }) attribute row cell
same_shown s x attribute row o cell h = record {
  size = h.size;
  colour = h.colour;
  in_row = h.in_row;
  shown = h.shown;
  behind = h.behind;
}

-- A window over a place from its row and column.
from_row :
    (s : Vga) (t : Tape) (row x place : ℕ) (strays : List (ℕ × ℕ))
    → Shows s t.attribute row t.cell
    → s.cursor_x ≡ x
    → x < 80
    → place ≡ row * 80 + x
    → s.outside ≡ strays
    → t.attribute < 0x7F
    → IsWindow s (record t { place = place; strays = strays })
from_row s t row x place strays h column hx at astray dark =
    let row_of : row ≡ place / 80 = omega arith in
    record {
      shows = subst (λ r. Shows s t.attribute r t.cell) row_of h;
      column = omega arith;
      astray = astray;
      dark = dark;
    }

-- What a character does at a column of the window's row.
put_astray :
    (c x : ℕ) (s : Vga) (t : Tape)
    → IsWindow s t
    → x < 80
    → put c (record s { cursor_x = x })
      ≡ record s { cursor_x = x; outside = t.strays ++ stray t.attribute c }
put_astray c x s t h hx =
    let colour = h.shows.colour in
    put_lem c (record s { cursor_x = x }) hx (omega (arith, h.shows.in_row))
      (omega (arith, h.shows.colour, h.dark))
    ∙ (λ i. record s { cursor_x = x; outside = h.astray i ++ stray (colour i) c })

pub newline_typed :
    (s : Vga) (t : Tape)
    → IsWindow s t
    → (s' : Vga) × (handle_newline s ≡ returned [] s')
      × IsWindow s' (record t { place = (t.place / 80 + 1) * 80 })
newline_typed s t h =
    let (s', runs, shown, column, same) = next_row s t.attribute (t.place / 80) t.cell h.shows in
    (
      s',
      runs,
      from_row s' t (t.place / 80 + 1) 0 ((t.place / 80 + 1) * 80) t.strays shown column
          (omega arith) (omega arith) (same ∙ h.astray) h.dark,
    )

pub backspace_typed :
    (s : Vga) (t : Tape)
    → IsWindow s t
    → (s' : Vga) × (handle_backspace s ≡ returned [] s')
      × IsWindow s' (
          if t.place % 80 == 0
          then t
          else record t { place = t.place - 1; strays = t.strays ++ stray t.attribute b' ' })
unfolding handle_backspace
backspace_typed s t h = elim (Bool-cases (t.place % 80 == 0)) [
  | inl e ↦ let first : (s.cursor_x == 0) ≡ true = rw h.column e in (s, rw first refl, rw e h)
  | inr e ↦
      let later : (s.cursor_x == 0) ≡ false = rw h.column e in
      let x = u32 (s.cursor_x + 2 ^ 32 - 1) in
      let column = h.column in
      let positive : 1 ≤ t.place % 80 = ground arith in
      let back : x ≡ t.place % 80 - 1 = omega arith in
      let strays = t.strays ++ stray t.attribute b' ' in
      (
        record s { cursor_x = x; outside = strays },
        rw (later, put_astray b' ' x s t h (omega arith)) refl,
        rw e (
            from_row (record s { cursor_x = x; outside = strays }) t (t.place / 80) x (t.place - 1)
              strays (same_shown s x t.attribute (t.place / 80) strays t.cell h.shows) refl
              (omega arith) (omega arith) refl h.dark),
      )
]

pub print_typed :
    (c : ℕ) (s : Vga) (t : Tape)
    → IsWindow s t
    → (s' : Vga) × (print c s ≡ returned [] s')
      × IsWindow s' (record t { place = t.place + 1; strays = t.strays ++ stray t.attribute c })
unfolding print
print_typed c s t h =
    let column = h.column in
    let strays = t.strays ++ stray t.attribute c in
    let puts = put_astray c s.cursor_x s t h (omega arith) in
    let x = u32 (s.cursor_x + 1) in
    let is_less : less x width ≡ ltb x 80 = ground arith in
    let s₂ : Vga = record s { cursor_x = x; outside = strays } in
    let shown = same_shown s x t.attribute (t.place / 80) strays t.cell h.shows in
    elim (Bool-cases (ltb x 80)) [
      | inl e ↦
          let below : x < 80 = ltb→lt x 80 e in
          let same_row : t.place / 80 * 80 + x ≡ t.place + 1 = omega arith in
          (
            s₂,
            rw (puts, is_less, e) refl,
            from_row s₂ t (t.place / 80) x (t.place + 1) strays shown refl below (omega arith) refl
                h.dark,
          )
      | inr e ↦
          let beyond : 80 ≤ x = ltb→le x 80 e in
          let (s', runs, shown', at, same) = next_row s₂ t.attribute (t.place / 80) t.cell shown in
          (
            s',
            rw (puts, is_less, e, runs) refl,
            from_row s' t (t.place / 80 + 1) 0 (t.place + 1) strays shown' at (omega arith)
                (omega arith) same h.dark,
          )
    ]
