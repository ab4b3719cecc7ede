-- ===== src/Shell/Interpreter.antt =====
-- What a command line means, by its words alone: no buffer and no pointers.
use micro_kernel.Base.{
  ℕ, ◌/◌, ◌≡◌, refl, List, [], ◌∷◌, Bool, true, false, Option, none, some, ◌==◌, if◌then◌else◌,
  Bytes, codes,
}
use micro_kernel.Console.{
  Trace, Run, write_vga_at, write_char_at, clear_screen, pure, returned, halted, panic, here,
}
use micro_kernel.Strings.Utoa.Laws.{printed}
use micro_kernel.Pmm.{Pmm}
use micro_kernel.Pmm.Alloc.{pmm_get_used_mem, pmm_get_total_mem}
use micro_kernel.Shell.Commands.{Command, help, echo, memstat, clear, panic_test, Entry, commands}

-- Each argument and a space.
abbrev pub echo_trace : List Bytes → Trace
echo_trace [] = write_char_at b'\n' here here 0x07 ∷ []
echo_trace (w ∷ ws) =
    write_vga_at w here here 0x0F ∷ write_char_at b' ' here here 0x0F ∷ echo_trace ws

abbrev pub help_trace : List Entry → Trace
help_trace [] = []
help_trace (e ∷ es) =
    write_vga_at (codes "  ") here here 0x07
    ∷ write_vga_at (e.name) here here 0x0E
    ∷ write_vga_at (codes "\t- ") here here 0x07
    ∷ write_vga_at (e.description) here here 0x07
    ∷ write_char_at b'\n' here here 0x07
    ∷ help_trace es

-- The kilobytes in decimal.
abbrev pub memstat_trace : ℕ → ℕ → Trace
memstat_trace used total =
    write_vga_at (codes "Physical Memory Usage:\n") here here 0x0B
    ∷ write_vga_at (codes "  Used: ") here here 0x07
    ∷ write_vga_at (printed 10 (used / 1024)) here here 0x0F
    ∷ write_vga_at (codes " KB\n") here here 0x07
    ∷ write_vga_at (codes "  Total: ") here here 0x07
    ∷ write_vga_at (printed 10 (total / 1024)) here here 0x0F
    ∷ write_vga_at (codes " KB\n") here here 0x07
    ∷ []

-- What a command writes for its arguments, and whether it stops the system.
abbrev pub meaning {ℓ} : {A : Type ℓ} → Pmm → Command → List Bytes → A → Run A
meaning pmm help ws a =
    returned
      (write_vga_at (codes "MicroKernel++ Shell - v0.4\nAvailable commands:\n") here here 0x0A
        ∷ help_trace commands)
      a
meaning pmm echo ws a = returned (echo_trace ws) a
meaning pmm memstat ws a = returned (memstat_trace (pmm_get_used_mem pmm) (pmm_get_total_mem pmm)) a
meaning pmm clear ws a = returned (clear_screen ∷ []) a
meaning pmm panic_test ws a = halted (panic (codes "User-initiated panic test.") ∷ [])

abbrev pub same_text : Bytes → Bytes → Bool
same_text [] [] = true
same_text [] (b ∷ t) = false
same_text (a ∷ s) [] = false
same_text (a ∷ s) (b ∷ t) = if a == b then same_text s t else false

unfoldable pub find_entry : List Entry → Bytes → Option Entry
find_entry [] w = none
find_entry (e ∷ es) w = if same_text (e.name) w then some e else find_entry es w

abbrev pub answer {ℓ} : {A : Type ℓ} → Pmm → Bytes → List Bytes → Option Entry → A → Run A
answer pmm w ws (some e) a = meaning pmm (e.func) ws a
answer pmm w ws none a =
    returned
      (write_vga_at (codes "Command not found: ") here here 0x0C
        ∷ write_vga_at w here here 0x0C
        ∷ write_char_at b'\n' here here 0x07
        ∷ [])
      a

-- The words of a line: the first is looked up in the table, the others are its arguments.
unfoldable pub interpret {ℓ} : {A : Type ℓ} → Pmm → List Bytes → A → Run A
interpret pmm [] a = pure a
interpret pmm (w ∷ ws) a = answer pmm w ws (find_entry commands w) a

-- Either the calls are made and the run goes on, or the system stops behind them.
abbrev pub conclude : {A : Type 0} → Bool → Trace → A → Run A
conclude true t a = halted t
conclude false t a = returned t a

abbrev pub Concludes : ((A : Type 0) → A → Run A) → Type 1
Concludes f = (stops : Bool) × (t : Trace) × ((A : Type 0) (a : A) → f A a ≡ conclude stops t a)

meaning-Concludes :
    (pmm : Pmm) (c : Command) (ws : List Bytes) → Concludes (λ A a. meaning {A = A} pmm c ws a)
meaning-Concludes pmm help ws = (false, _, λ A a. refl)
meaning-Concludes pmm echo ws = (false, _, λ A a. refl)
meaning-Concludes pmm memstat ws = (false, _, λ A a. refl)
meaning-Concludes pmm clear ws = (false, _, λ A a. refl)
meaning-Concludes pmm panic_test ws = (true, _, λ A a. refl)

answer-Concludes :
    (pmm : Pmm) (w : Bytes) (ws : List Bytes) (found : Option Entry)
    → Concludes (λ A a. answer {A = A} pmm w ws found a)
answer-Concludes pmm w ws none = (false, _, λ A a. refl)
answer-Concludes pmm w ws (some e) = meaning-Concludes pmm e.func ws

pub interpret-Concludes :
    (pmm : Pmm) (ws : List Bytes) → Concludes (λ A a. interpret {A = A} pmm ws a)
unfolding interpret
interpret-Concludes pmm [] = (false, [], λ A a. refl)
interpret-Concludes pmm (w ∷ ws) = answer-Concludes pmm w ws (find_entry commands w)
