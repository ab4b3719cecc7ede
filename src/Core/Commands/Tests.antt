-- ===== src/Core/Commands/Tests.antt =====
-- The commands at concrete counters.
use micro_kernel.Base.{ℕ, ◌+◌, ◌*◌, ◌<◌, ◌≡◌, [], ◌∷◌, arith}
use micro_kernel.Console.{returned, write_vga_at, here}
use micro_kernel.Core.Printf.Render.{shown_all}
use micro_kernel.Core.Commands.{cmd_uptime}
use micro_kernel.Core.Commands.Uptime.{uptime_pieces, cmd_uptime_lem}

cmd_uptime_lem_example :
    (d h m s : ℕ) × (cmd_uptime 4503650
      ≡ returned (write_vga_at (shown_all (uptime_pieces d h m s 4503650)) here here 0x07 ∷ []) 0)
    × (((d * 24 + h) * 60 + m) * 60 + s ≡ 90073)
    × (h < 24)
    × (m < 60)
    × (s < 60)
cmd_uptime_lem_example = cmd_uptime_lem 4503650 (omega arith) (omega arith)
