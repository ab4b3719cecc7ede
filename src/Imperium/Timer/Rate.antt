-- ===== src/Imperium/Timer/Rate.antt =====
-- The rate that the timer gets.
use micro_kernel.Base.{
  ℕ, ◌+◌, ◌*◌, ◌/◌, ◌^◌, ◌<◌, ◌≡◌, refl, [], ◌∷◌, Bool, true, false, if◌then◌else◌, ◌==◌, arith,
}
use micro_kernel.Console.{Trace, returned, outb, write_vga_at, write_char_at, clear_screen, panic}
use micro_kernel.Imperium.Timer.{pit_install, pit_base_frequency}

-- Channel 0 of the timer by its data sheet (Intel 8254), when it is programmed for a low and a
-- high byte.
pub record Channel : Type 0 where
  pub low_next : Bool
  pub low : ℕ
  pub count : ℕ

abbrev pub write_port : ℕ → ℕ → Channel → Channel
write_port port v c =
    if port == 0x43
    then record c { low_next = true }
    else if port == 0x40
    then (if c.low_next
        then record c { low_next = false; low = v }
        else record c { low_next = true; count = c.low + 2 ^ 8 * v })
    else c

abbrev pub program : Trace → Channel → Channel
program [] c = c
program (outb port v ∷ t) c = program t (write_port port v c)
program (write_vga_at s row col attr ∷ t) c = program t c
program (write_char_at s row col attr ∷ t) c = program t c
program (clear_screen ∷ t) c = program t c
program (panic message ∷ t) c = program t c

-- The count 0 stands for 2 ^ 16.
abbrev pub divisor : Channel → ℕ
divisor c = if c.count == 0 then 2 ^ 16 else c.count

-- Every frequency below the timer's own but 0, whatever the channel's state, gives the same,
-- slowest rate, since `div` divides the frequency by the base and not the base by the frequency.
-- EBX holds the base frequency afterwards.
pub pit_slowest :
    (freq ebx : ℕ) (c : Channel)
    → 0 < freq
    → freq < pit_base_frequency
    → (t : Trace) × (pit_install freq ebx ≡ returned t pit_base_frequency)
      × (divisor (program t c) ≡ 2 ^ 16)
unfolding pit_install
pit_slowest freq ebx c positive below =
    let some_freq : (freq == 0) ≡ false = ground arith in
    let quotient : freq / pit_base_frequency ≡ 0 = omega arith in
    (outb 0x43 0x36 ∷ outb 0x40 0 ∷ outb 0x40 0 ∷ [], rw (some_freq, quotient) refl, refl)
