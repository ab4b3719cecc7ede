-- ===== src/Kernel/Tests.antt =====
-- Runs of the start, and the theorems at inputs that meet their hypotheses.
use micro_kernel.Base.{
  ℕ, ◌≡◌, ◌⊎◌, refl, [], ◌∷◌, ◌++◌, some, arith, true, false, get_elem?, length-replicate,
  replicate, Bytes, codes,
}
use micro_kernel.Console.{Trace, returned}
use micro_kernel.Pmm.{Pmm}
use micro_kernel.Pmm.Samples.{boot_memory, entries, has_map, IsRoomy-low_map}
use micro_kernel.Pmm.Init.{init_pmm}
use micro_kernel.Pmm.Alloc.{pmm_alloc_page}
use micro_kernel.Pmm.Alloc.Valid.{IsValid}
use micro_kernel.Interrupts.{initial, zero_entry, IdtEntry, isr_handler}
use micro_kernel.Interrupts.Gate.{IsInstalled}
use micro_kernel.Kernel.Hex.{hex_to_str, write_digits, report, hex_to_str-low_first}
use micro_kernel.Kernel.Main.{Booted, kernel_main}
use micro_kernel.Interrupts.Gate.{IsKeyboardGate}
use micro_kernel.Interrupts.Handler.{accept}
use micro_kernel.Interrupts.Pic.{Chip, Expects, Pics, drive, is_masked, vector}
use micro_kernel.Interrupts.Stub.{save, isr_handler_common, isr_noerr_stub}
use micro_kernel.Interrupts.Stub.Frame.{argument}
use micro_kernel.Interrupts.Stub.Samples.{idle, idle-IsCpu, scratch}
use micro_kernel.Cpu.{Cpu, cdecl, push_32, run_code, interrupt, Return, faults, leaves, run_stub}
use micro_kernel.Keyboard
use micro_kernel.Kernel.FirstKey.{end_calls, first_key}
use micro_kernel.Kernel.Boot.{yellow, kernel_main_starts}

abbrev stack : Bytes
stack = replicate 11 0xCC

backwards : hex_to_str 0x106000 stack ≡ some (codes "0x00060100" ++ 0 ∷ [])
unfolding hex_to_str write_digits
backwards = refl

hex_to_str-low_first_example : hex_to_str 0x106000 stack ≡ some (report 0x106000 ++ 0 ∷ [])
hex_to_str-low_first_example = hex_to_str-low_first 0x106000 stack refl

kernel_main_starts_example :
    (t : Trace) × (b : Booted) × (s0 s1 s2 : Pmm) × (p1 p2 p3 : ℕ) × (kernel_main
        (boot_memory 0x40 0x100000)
        0x105123
        0x104000
        0x100040
        0
        stack
        initial
      ≡ returned t b)
    × IsInstalled 0x104000 0x100040 b.idt
    × (init_pmm (boot_memory 0x40 0x100000) 0x105123 0 ≡ returned [] s0)
    × (pmm_alloc_page s0 ≡ (p1, s1))
    × (pmm_alloc_page s1 ≡ (p2, s2))
    × (pmm_alloc_page s2 ≡ (p3, b.pmm))
    × IsValid b.pmm
    × (yellow t ≡ report p1 ∷ report p2 ∷ report p3 ∷ [])
kernel_main_starts_example =
    kernel_main_starts (boot_memory 0x40 0x100000) 0x105123 0x104000 0x100040 0 stack initial
      (entries 0x100000) has_map IsRoomy-low_map (omega arith) (length-replicate 256 zero_entry)
      refl

-- Controllers that hold anything.
abbrev chip : Chip
chip = record { expects = Expects.icw3; offset = 8; cascade = 0; masked = 0xB8; in_service = true }

abbrev pics : Pics
pics = record { master = chip; slave = chip }

-- A flat code segment at 0x08 and a flat data segment at 0x10.
abbrev flat : Bytes
flat =
    replicate 8 0
    ++ (0xFF ∷ 0xFF ∷ 0 ∷ 0 ∷ 0 ∷ 0x9A ∷ 0xCF ∷ 0 ∷ [])
    ++ 0xFF ∷ 0xFF ∷ 0 ∷ 0 ∷ 0 ∷ 0x92 ∷ 0xCF ∷ 0 ∷ []

first_key_example :
    (t : Trace) × (b : Booted) × (e : IdtEntry) × (called : Cpu) × (n : ℕ) × (after : Return)
    × (kernel_main (boot_memory 0x40 0x100000) 0x105123 0x104000 0x100040 0 stack initial
        ≡ returned t b)
    × (b.idt.enabled ≡ true)
    × (is_masked (drive t pics) 1 ≡ false)
    × (get_elem? b.idt.table (vector (drive t pics) 1) ≡ some e)
    × IsKeyboardGate 0x100040 e
    × (run_code (isr_noerr_stub 33 save) (interrupt 0x100040 idle) ≡ some called)
    × (argument (push_32 0x100060 called) ≡ some n)
    × (isr_handler n 30 Keyboard.initial ≡ returned (end_calls idle.edi) Keyboard.initial)
    × ((drive (end_calls idle.edi) (accept 1 (drive t pics))).master.in_service ≡ false)
    × (run_stub flat
          (isr_noerr_stub 33 (isr_handler_common 0x100060 (cdecl scratch)))
          (interrupt 0x100040 idle)
        ≡ some after)
    × ((after ≡ faults) ⊎ (after ≡ leaves 2))
first_key_example =
    first_key (boot_memory 0x40 0x100000) 0x105123 0x104000 0x100040 0 stack initial
      (entries 0x100000) pics flat idle 0x100060 0x9500 30 (replicate 12 0) scratch Keyboard.initial
      has_map IsRoomy-low_map (omega arith) (length-replicate 256 zero_entry) refl idle-IsCpu refl
      refl refl (omega arith) refl
