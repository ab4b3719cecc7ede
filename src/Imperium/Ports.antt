-- ===== src/Imperium/Ports.antt =====
-- main.core.asm, parts 1 and 6: the Multiboot header, and the functions of one or two instructions
-- that C calls.
use micro_kernel.Base.{
  ℕ, ◌+◌, ◌-◌, ◌*◌, ◌/◌, ◌^◌, ◌≡◌, refl, ap, true, List, [], ◌∷◌, get_or, arith, u8, u16, u32,
}
use micro_kernel.Cpu.{Cpu, Instruction, cli, sti, bytes_32, push_32}
use micro_kernel.Kernel.Entry.{accepts}

abbrev pub multiboot_header : List ℕ
multiboot_header = 0x1BADB002 ∷ 0x00000003 ∷ u32 (2 ^ 32 - (0x1BADB002 + 0x00000003)) ∷ []

-- At the entry: the port in DX from [ESP + 4], and the value in AL from [ESP + 8].
unfoldable pub outb : Cpu → ℕ × ℕ
outb c = (get_or c.stack 4 0 + 2 ^ 8 * get_or c.stack 5 0, get_or c.stack 8 0)

-- The port that is read.
unfoldable pub inb : Cpu → ℕ
inb c = get_or c.stack 4 0 + 2 ^ 8 * get_or c.stack 5 0

abbrev pub enable_interrupts : List Instruction
enable_interrupts = sti ∷ []

abbrev pub disable_interrupts : List Instruction
disable_interrupts = cli ∷ []

-- A C call with the two arguments writes the low byte of the value to the port of the low half of
-- the port's number, and a call with one reads that port.
pub ports_lem :
    (c : Cpu) (back port value : ℕ)
    → (outb (push_32 back (push_32 port (push_32 value c))) ≡ (u16 port, u8 value))
      × (inb (push_32 back (push_32 port c)) ≡ u16 port)
unfolding outb inb push_32 bytes_32
ports_lem c back port value =
    let low : u8 port + 2 ^ 8 * u8 (port / 2 ^ 8) ≡ u16 port = omega arith in
    (ap (λ p. (p, u8 value)) low, low)

-- A loader takes the image.
header_accepted : accepts multiboot_header ≡ true
header_accepted = refl
