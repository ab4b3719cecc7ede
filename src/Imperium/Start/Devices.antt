-- ===== src/Imperium/Start/Devices.antt =====
-- The second version of the start behind `tss_install`.
use micro_kernel.Base.{true, false, Bytes, codes, List, ◌++◌, [], ◌∷◌}
use micro_kernel.Interrupts.Pic.{Chip, mask}
use micro_kernel.Imperium.Timer.Rate.{Channel}
use micro_kernel.Imperium.Vga.Tape.{Tape, type_text}

abbrev pub type_texts : List Bytes → Tape → Tape
type_texts [] t = t
type_texts (text ∷ texts) t = type_texts texts (type_text (text ++ b'\n' ∷ []) t)

abbrev pub messages : List Bytes
messages =
    codes " [ OK ] GDT and TSS installed."
    ∷ codes " [ OK ] IDT and PIC configured."
    ∷ codes " [ OK ] PIT initialized."
    ∷ codes " [ OK ] FPU/SSE units enabled."
    ∷ codes " [ OK ] Paging mechanism enabled."
    ∷ (b'\n' ∷ codes "Handing over control to high-level kernel..." ++ b'\n' ∷ [])
    ∷ []

abbrev any_channel : Channel
any_channel = record { low_next = true; low = 0; count = 0 }

abbrev any_chip : Chip
any_chip = record { expects = mask; offset = 0; cascade = 0; masked = 0; in_service = false }
