-- ===== src/Core/Commands/Uptime.antt =====
-- What `cmd_uptime` shows.
use micro_kernel.Base.{
  ℕ, ◌+◌, ◌*◌, ◌/◌, ◌%◌, ◌^◌, ◌≤◌, ◌<◌, ◌≡◌, ◌≢◌, refl, List, [], ◌∷◌, arith, length, All, codes,
}
use micro_kernel.Console.{returned, write_vga_at, here}
use micro_kernel.Core.Printf.Call.{shell_printf-shown}
use micro_kernel.Core.Printf.Number.{length-decimal}
use micro_kernel.Core.Printf.Render.{Piece, lit, dec, IsPiece, shown_all, length-shown_all}
use micro_kernel.Core.Commands.{cmd_uptime}

-- The line for a number of days, hours, minutes, seconds and ticks.
abbrev pub uptime_pieces : ℕ → ℕ → ℕ → ℕ → ℕ → List Piece
uptime_pieces d h m s ticks =
    lit (codes "system up for: ")
    ∷ dec d
    ∷ lit (codes " days, ")
    ∷ dec h
    ∷ lit (codes " hours, ")
    ∷ dec m
    ∷ lit (codes " minutes, ")
    ∷ dec s
    ∷ lit (codes " seconds (")
    ∷ dec ticks
    ∷ lit (codes " ticks)\n")
    ∷ []

-- For each value of the tick counter but 2^31, whose negation as an int is undefined, the command shows one line and returns 0. The line has the
-- decimals of days, hours below 24, minutes and seconds below 60 that together are the counted
-- seconds, at 50 ticks each, and of the counter as a signed number.
pub cmd_uptime_lem :
    (ticks : ℕ)
    → ticks < 2 ^ 32
    → ticks ≢ 2 ^ 31
    → (d h m s : ℕ) × (cmd_uptime ticks
        ≡ returned (write_vga_at (shown_all (uptime_pieces d h m s ticks)) here here 0x07 ∷ []) 0)
      × (((d * 24 + h) * 60 + m) * 60 + s ≡ ticks / 50)
      × (h < 24)
      × (m < 60)
      × (s < 60)
unfolding cmd_uptime
cmd_uptime_lem ticks bound ne =
    let s = ticks / 50 in
    let ps = uptime_pieces (s / 60 / 60 / 24) (s / 60 / 60 % 24) (s / 60 % 60) (s % 60) ticks in
    let are_pieces : All IsPiece ps = omega arith in
    let room : length (shown_all ps) ≤ 510 = omega (
      arith,
      length-shown_all ps,
      length-decimal (s / 60 / 60 / 24),
      length-decimal (s / 60 / 60 % 24),
      length-decimal (s / 60 % 60),
      length-decimal (s % 60),
      length-decimal ticks,
    ) in
    (
      s / 60 / 60 / 24,
      s / 60 / 60 % 24,
      s / 60 % 60,
      s % 60,
      rw (shell_printf-shown ps are_pieces room) refl,
      omega arith,
      omega arith,
      omega arith,
      omega arith,
    )
