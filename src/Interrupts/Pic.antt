-- ===== src/Interrupts/Pic.antt =====
-- The two interrupt controllers as their data sheet (Intel 8259A) describes them, as far as the
-- kernel drives them, and the state that `init_pic` puts them in.
use micro_kernel.Base.{
  ℕ, ◌+◌, ◌-◌, ◌/◌, ◌%◌, ◌^◌, ◌≡◌, refl, [], ◌∷◌, Bool, false, ◌==◌, if◌then◌else◌,
}
use micro_kernel.Console.{Trace, returned, outb, write_vga_at, write_char_at, clear_screen, panic}
use micro_kernel.Interrupts.{init_pic}

-- The next byte at the data port: one of the initialization words, or the mask.
pub data Expects : Type 0 where
  icw2 icw3 icw4 mask : Expects

pub record Chip : Type 0 where
  pub expects : Expects
  pub offset : ℕ
  pub cascade : ℕ
  pub masked : ℕ
  pub in_service : Bool

pub record Pics : Type 0 where
  pub master : Chip
  pub slave : Chip

-- Bit 4 begins the initialization; 0x20 is the end of the interrupt in service.
abbrev pub command : ℕ → Chip → Chip
command v c =
    if v / 16 % 2 == 1
    then record c { expects = icw2; masked = 0; in_service = false }
    else if v == 0x20
    then record c { in_service = false }
    else c

abbrev pub store_word : Expects → ℕ → Chip → Chip
store_word icw2 v c = record c { offset = v; expects = icw3 }
store_word icw3 v c = record c { cascade = v; expects = icw4 }
store_word icw4 v c = record c { expects = mask }
store_word mask v c = record c { masked = v }

abbrev pub write_port : ℕ → ℕ → Pics → Pics
write_port port v p =
    if port == 0x20
    then record p { master = command v p.master }
    else if port == 0x21
    then record p { master = store_word p.master.expects v p.master }
    else if port == 0xA0
    then record p { slave = command v p.slave }
    else if port == 0xA1
    then record p { slave = store_word p.slave.expects v p.slave }
    else p

-- What the calls of a run do to the controllers.
abbrev pub drive : Trace → Pics → Pics
drive [] p = p
drive (outb port v ∷ t) p = drive t (write_port port v p)
drive (write_vga_at s row col attr ∷ t) p = drive t p
drive (write_char_at c row col attr ∷ t) p = drive t p
drive (clear_screen ∷ t) p = drive t p
drive (panic message ∷ t) p = drive t p

-- The line's bit in its chip's mask, and the vector that the line raises.
abbrev pub is_masked : Pics → ℕ → Bool
is_masked p irq =
    if irq / 8 == 0
    then p.master.masked / 2 ^ irq % 2 == 1
    else p.slave.masked / 2 ^ (irq - 8) % 2 == 1

abbrev pub vector : Pics → ℕ → ℕ
vector p irq = if irq / 8 == 0 then p.master.offset + irq else p.slave.offset + (irq - 8)

pub record IsReady (p : Pics) : Type 0 where
  pub master_mask : p.master.expects ≡ mask
  pub slave_mask : p.slave.expects ≡ mask
  pub master_offset : p.master.offset ≡ 0x20
  pub slave_offset : p.slave.offset ≡ 0x28
  pub master_line : p.master.cascade ≡ 0x04
  pub slave_id : p.slave.cascade ≡ 0x02
  pub master_masked : p.master.masked ≡ 0xFD
  pub slave_masked : p.slave.masked ≡ 0xFF

-- Whatever state the two controllers were in, the ten writes of `init_pic` leave them initialized,
-- cascaded over line 2, with the vectors from 32 and from 40 on and every line masked but 1.
pub init_pic-IsReady : (p : Pics) → (t : Trace) × (init_pic ≡ returned t tt) × IsReady (drive t p)
unfolding init_pic
init_pic-IsReady p = (
  _,
  refl,
  record {
    master_mask = refl;
    slave_mask = refl;
    master_offset = refl;
    slave_offset = refl;
    master_line = refl;
    slave_id = refl;
    master_masked = refl;
    slave_masked = refl;
  },
)
