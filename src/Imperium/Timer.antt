-- ===== src/Imperium/Timer.antt =====
-- main.core.asm, part 11: the programmable timer.
pub mod Rate
use micro_kernel.Base.{ℕ, ◌+◌, ◌*◌, ◌/◌, ◌%◌, ◌^◌, if◌then◌else◌, ◌==◌, u8}
use micro_kernel.Console.{Run, outb, pure, ◌>>=◌, ◌>>◌, call}

abbrev pub pit_base_frequency : ℕ
pit_base_frequency = 1193182

-- `freq` is the argument and `ebx` the register; the result is EBX. `div` divides EDX:EAX, which
-- is the frequency, by EBX, and the three writes are of AL, CL and CH.
unfoldable pub pit_install : ℕ → ℕ → Run ℕ
pit_install freq ebx =
    let divides = (do
      let ecx = freq / pit_base_frequency
      call (outb 0x43 0x36)
      call (outb 0x40 (u8 ecx))
      call (outb 0x40 (u8 (ecx / 2 ^ 8)))
      pure pit_base_frequency) in
    if freq == 0 then pure ebx else divides
