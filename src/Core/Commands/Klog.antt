-- ===== src/Core/Commands/Klog.antt =====
-- What `cmd_klog` shows, and the start of the core system.
use micro_kernel.Base.{
  ◌+◌, ◌≤◌, ◌≡◌, refl, List, [], ◌∷◌, ◌++◌, arith, length, All, codes, Bytes, leb, ◌&&◌, ◌==◌,
  if◌then◌else◌, append-nil, map, subst, sym,
}
use micro_kernel.Console.{returned, write_vga_at, here, Call}
use micro_kernel.Core.Printf.Call.{shell_printf, shell_printf-shown}
use micro_kernel.Core.Printf.Render.{lit, IsPiece}
use micro_kernel.Core.Commands.{print_lines, cmd_klog}
use micro_kernel.Core.Startup.{KernelLog, startup_logs}

-- A text that a format shows as it is, in one write.
abbrev pub IsPlain : Bytes → Type 0
IsPlain t = IsPiece (lit t) × (length t ≤ 510)

abbrev pub write : Bytes → Call
write t = write_vga_at t here here 0x07

plain_shown : (t : Bytes) → IsPlain t → shell_printf (t ++ 0 ∷ []) [] ≡ returned (write t ∷ []) tt
plain_shown t (plain, short) =
    subst (λ u. shell_printf (u ++ 0 ∷ []) [] ≡ returned (write u ∷ []) tt) (append-nil t)
      (shell_printf-shown (lit t ∷ []) (plain, tt)
        (subst (λ u. length u ≤ 510) (sym (append-nil t)) short))

lines_shown :
    (ts : List Bytes)
    → All IsPlain ts
    → print_lines (map (λ t. t ++ 0 ∷ []) ts) ≡ returned (map write ts) 0
unfolding print_lines
lines_shown [] h = refl
lines_shown (t ∷ ts) (h, hs) = rw (plain_shown t h, lines_shown ts hs) refl

-- The characters of an object up to its terminator, in lower case.
unfoldable pub lower_text : Bytes → Bytes
lower_text [] = []
lower_text (c ∷ cs) =
    let rest = lower_text cs in
    if c == 0 then [] else (if leb 65 c && leb c 90 then c + 32 else c) ∷ rest

abbrev pub info_line : KernelLog → Bytes
info_line l =
    codes "[info]  " ++ lower_text l.component ++ codes ": " ++ lower_text l.message ++ codes "\n"

-- The lines of `klog`.
abbrev pub shown_log : List Bytes
shown_log =
    codes "kernel log buffer (last 10 entries):\n" ∷ map info_line startup_logs
    ++ codes "[debug] pmm: allocated page.\n" ∷ []

shown_log-IsPlain : All IsPlain shown_log
unfolding lower_text
shown_log-IsPlain = omega arith

-- `klog` returns 0, and shows its heading, the records that `CoreSystem_Initialize` makes, in
-- their order and in lower case, and one entry more, which no code makes.
pub cmd_klog-startup_logs : cmd_klog ≡ returned (map write shown_log) 0
unfolding cmd_klog lower_text
cmd_klog-startup_logs = lines_shown shown_log shown_log-IsPlain
