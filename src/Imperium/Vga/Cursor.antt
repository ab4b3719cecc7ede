-- ===== src/Imperium/Vga/Cursor.antt =====
-- The blinking cursor of the display.
use micro_kernel.Base.{◌+◌, ◌*◌, ◌/◌, ◌%◌, ◌^◌, ◌<◌, ◌≡◌, refl, [], ◌∷◌, u8, u32, arith}
use micro_kernel.Console.{Trace, Run, returned, pure, outb, ◌>>=◌}
use micro_kernel.Imperium.Vga.{Vga, vga_update_hw_cursor}
use micro_kernel.Imperium.Vga.Tape.{Tape, IsWindow}

-- The four writes to the display controller's ports.
abbrev pub cursor_writes : Vga → Trace
cursor_writes s =
    outb 0x3D4 0x0F
    ∷ outb 0x3D5 0x0F
    ∷ outb 0x3D4 0x0E
    ∷ outb 0x3D5 (u8 ((80 * s.cursor_y + s.cursor_x) / 2 ^ 8))
    ∷ []

pub hw_cursor_lem :
    (s : Vga)
    → s.cursor_x < 80
    → s.cursor_y < 25
    → vga_update_hw_cursor s ≡ returned (cursor_writes s) tt
unfolding vga_update_hw_cursor
hw_cursor_lem s hx hy =
    let pos = u32 (80 * s.cursor_y + s.cursor_x) in
    let with_0F = pos / 2 ^ 8 * 2 ^ 8 + 0x0F in
    let low_byte = with_0F / 2 ^ 8 * 2 ^ 8 + with_0F % 2 ^ 8 in
    let with_0E = low_byte / 2 ^ 8 * 2 ^ 8 + 0x0E in
    let high = with_0E / 2 ^ 8 in
    let address : u8 with_0F ≡ 0x0F = omega arith in
    let low : u8 low_byte ≡ 0x0F = omega arith in
    let address' : u8 with_0E ≡ 0x0E = omega arith in
    let up : u8 (high / 2 ^ 8 * 2 ^ 8 + u8 high) ≡ u8 ((80 * s.cursor_y + s.cursor_x) / 2 ^ 8) =
      omega arith in
    λ i.
      returned
        (outb 0x3D4 (address i)
          ∷ outb 0x3D5 (low i)
          ∷ outb 0x3D4 (address' i)
          ∷ outb 0x3D5 (up i)
          ∷ [])
        tt

pub window_in_screen : (s : Vga) (t : Tape) → IsWindow s t → (s.cursor_x < 80) × (s.cursor_y < 25)
window_in_screen s t h =
    let column = h.column in let row = h.shows.in_row in (omega arith, omega arith)

pub shows_cursor :
    (r : Run Vga) (s : Vga) (t : Tape)
    → r ≡ returned [] s
    → IsWindow s t
    → (r >>= λ s'. (vga_update_hw_cursor s' >>= λ _. pure s')) ≡ returned (cursor_writes s) s
shows_cursor r s t runs h =
    let (hx, hy) = window_in_screen s t h in rw (runs, hw_cursor_lem s hx hy) refl
