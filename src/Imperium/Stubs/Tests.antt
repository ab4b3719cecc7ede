-- ===== src/Imperium/Stubs/Tests.antt =====
-- The stubs on a busy processor.
use micro_kernel.Base.{
  ℕ, ◌+◌, ◌*◌, ◌%◌, ◌^◌, ◌<◌, ◌≡◌, refl, [], ◌∷◌, ◌++◌, none, some, arith, true, false, replicate,
  length-replicate, get_elem?,
}
use micro_kernel.Console.{Trace, returned}
use micro_kernel.Cpu.{
  Cpu, cdecl, bytes_32, push_32, run_code, raise, run_stub, returns, faults, names_code,
}
use micro_kernel.Cpu.Words.{IsCpu, IsRing0}
use micro_kernel.Imperium.Segments.{gdt}
use micro_kernel.Interrupts.{IdtEntry, zero_entry}
use micro_kernel.Interrupts.Gate.{handler_of}
use micro_kernel.Interrupts.Pic.{Chip, Expects, Pics, drive}
use micro_kernel.Interrupts.Stub.Frame.{argument}
use micro_kernel.Imperium.Idt.{IdtState, idt_install}
use micro_kernel.Imperium.Stubs.{save}
use micro_kernel.Imperium.Stubs.Frame.{Event, exception, stub_of, words}
use micro_kernel.Imperium.Stubs.Restore.{code_with}
use micro_kernel.Imperium.Stubs.Served.{raises, interrupt_served, missing_error_code}

-- Interrupted by a page fault with the error code 2.
abbrev busy : Cpu
busy = record {
  eax = 1;
  ecx = 2;
  edx = 3;
  ebx = 0x9500;
  esp = 0x7FF0;
  ebp = 0x7FF8;
  esi = 6;
  edi = 0x20007;
  ds = 0x10;
  es = 0x10;
  fs = 0x10;
  gs = 0x10;
  eip = 0x100080;
  cs = 0x08;
  eflags = 0x202;
  interrupts = true;
  stack = replicate 16 0;
}

busy-IsCpu : IsCpu busy
busy-IsCpu = omega arith

busy-IsRing0 : IsRing0 gdt busy
unfolding names_code
busy-IsRing0 = record { code = refl; ring = refl; protected = refl }

abbrev page_fault : Event
page_fault = exception 14 (some 2)

abbrev scratch : Cpu → ℕ × ℕ × ℕ
scratch c = (0, c.esp, 0x20)

abbrev stubs : ℕ → ℕ
stubs n = 0x100000 + 16 * (n % 256)

stubs-lt : (n : ℕ) → stubs n < 2 ^ 32
stubs-lt n = omega arith

abbrev chip : Chip
chip = record { expects = Expects.mask; offset = 8; cascade = 0; masked = 0; in_service = true }

abbrev pics : Pics
pics = record { master = chip; slave = chip }

abbrev table : IdtState
table = record {
  table = replicate 256 zero_entry;
  limit = 0;
  base = 0;
  loaded = false;
  interrupts = false;
}

interrupt_served_example :
    (t : Trace) × (s' : IdtState) × (g : IdtEntry) × (called : Cpu) × (idt_install stubs 0x104000
        table
      ≡ returned t s')
    × (get_elem? s'.table (raises page_fault (drive t pics)) ≡ some g)
    × (handler_of g ≡ stubs 14)
    × (g.sel ≡ 0x08)
    × (g.flags ≡ 0x8E)
    × (run_code (stub_of page_fault save) (raise (some 2) (handler_of g) busy) ≡ some called)
    × (argument (push_32 0x100060 called) ≡ some 0x7FB8)
    × (called.stack
        ≡ bytes_32 0x7FB8
          ++ (words (
                0x10 ∷ 0x20007 ∷ 6 ∷ 0x7FF8 ∷ 0x7FDC ∷ 0x9500 ∷ 3 ∷ 2 ∷ 1 ∷ 14 ∷ 2 ∷ 0x100080 ∷ 0x08
                ∷ 0x202 ∷ [])
              ++ replicate 16 0))
    × (run_stub gdt
          (code_with page_fault 0x100060 (cdecl scratch))
          (raise (some 2) (handler_of g) busy)
        ≡ some (returns busy))
interrupt_served_example =
    interrupt_served stubs 0x104000 table pics gdt busy 0x100060 page_fault scratch
      (length-replicate 256 zero_entry) stubs-lt busy-IsCpu refl (omega arith) busy-IsRing0

-- The vector 28, for which the processor pushes no error code.
missing_error_code_example :
    run_stub gdt (code_with (exception 28 none) 0x100060 (cdecl scratch)) (raise none 0x1001C0 busy)
    ≡ some faults
unfolding bytes_32
missing_error_code_example =
    missing_error_code busy 28 0x1001C0 0x100060 0 (replicate 12 0) scratch busy-IsCpu refl refl
      refl (omega arith) refl
