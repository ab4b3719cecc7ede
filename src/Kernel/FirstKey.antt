-- ===== src/Kernel/FirstKey.antt =====
-- The first key after the start: kernel/kernel.c, kernel/idth.c, kernel/isr.s and
-- kernel/keyboard.c together, with the controllers and the processor.
use micro_kernel.Base.{
  ℕ, ◌+◌, ◌/◌, ◌%◌, ◌^◌, ◌⊎◌, ◌<◌, ◌≡◌, refl, ap, ◌∙◌, List, [], ◌∷◌, ◌++◌, length, Bytes, codes,
  true, false, some, arith, ◌==◌, if◌then◌else◌, get_elem?, subst, Bool-cases, inl, inr,
}
use micro_kernel.Console.Laws.{trace_of}
use micro_kernel.Console.{Trace, returned, outb}
use micro_kernel.Cpu.{
  Cpu, cdecl, bytes_32, push_32, run_code, interrupt, Return, faults, leaves, run_stub,
}
use micro_kernel.Cpu.Words.{IsCpu}
use micro_kernel.Pmm.Multiboot.{Memory, MemoryMap}
use micro_kernel.Pmm.Init.{no_region}
use micro_kernel.Pmm.Init.Scan.{longest}
use micro_kernel.Pmm.Init.Result.{HasMap, IsRoomy, init_pmm-IsValid}
use micro_kernel.Pmm.Alloc.{pmm_alloc_page}
use micro_kernel.Interrupts.{IdtEntry, Idt, init_idt, init_pic, isr_handler}
use micro_kernel.Interrupts.Gate.{IsKeyboardGate}
use micro_kernel.Interrupts.Handler.{vector_lem, accept}
use micro_kernel.Interrupts.Pic.{Pics, drive, is_masked, vector, IsReady}
use micro_kernel.Interrupts.Stub.{save, isr_handler_common, isr_noerr_stub}
use micro_kernel.Interrupts.Stub.Frame.{argument, stub_lost}
use micro_kernel.Interrupts.Stub.Lost.{keyboard_lost}
use micro_kernel.Kernel.Hex.{report}
use micro_kernel.Kernel.Main.{Booted, print, kernel_main}
use micro_kernel.Kernel.Boot.{kernel_main_starts, test_page_lem}
use micro_kernel.Keyboard.{Cursor}

-- The start leaves the controllers initialized, whatever they held.
kernel_main-IsReady :
    (m : Memory) (kernel_end idt_addr isr33_addr mbd : ℕ) (buffer : Bytes) (s : Idt)
    (es : List MemoryMap) (p : Pics)
    → HasMap m mbd es
    → IsRoomy kernel_end (longest no_region es)
    → length buffer ≡ 11
    → IsReady (drive (trace_of (kernel_main m kernel_end idt_addr isr33_addr mbd buffer s)) p)
unfolding kernel_main init_idt init_pic print
kernel_main-IsReady m kernel_end idt_addr isr33_addr mbd buffer s es p map roomy room =
    let started = init_pmm-IsValid m kernel_end mbd es map roomy in
    let one = pmm_alloc_page started.0 in
    let two = pmm_alloc_page one.1 in
    rw
      (
        started.1,
        test_page_lem (codes "Page 1 allocated at: ") 9 started.0 buffer room,
        test_page_lem (codes "Page 2 allocated at: ") 10 one.1 (report one.0 ++ 0 ∷ []) refl,
        test_page_lem (codes "Page 3 allocated at: ") 11 two.1 (report two.0 ++ 0 ∷ []) refl,
      )
      (record {
        master_mask = refl;
        slave_mask = refl;
        master_offset = refl;
        slave_offset = refl;
        master_line = refl;
        slave_id = refl;
        master_masked = refl;
        slave_masked = refl;
      })

-- The calls of the handler, and that they end the interrupt.
abbrev pub end_calls : ℕ → Trace
end_calls edi =
    if edi % 2 ^ 16 == 0 then outb 0x20 0x20 ∷ [] else outb 0xA0 0x20 ∷ outb 0x20 0x20 ∷ []

ends_line_1 : (edi : ℕ) (p : Pics) → (drive (end_calls edi) (accept 1 p)).master.in_service ≡ false
ends_line_1 edi p = elim (Bool-cases (edi % 2 ^ 16 == 0)) [ inl e ↦ rw e refl | inr e ↦ rw e refl ]

-- The kernel from its start to the first key. With a roomy memory map, a 32-bit stub address, a
-- table of 256 entries and the array of eleven bytes, whatever the controllers held: the start
-- reaches its final loop with interrupts enabled, the keyboard's line open, and the keyboard's stub
-- in the gate of the vector that the line raises. When a key then interrupts the loop (any
-- processor in ring 0 with DS 0x10, bit 1 of EFLAGS as it always is, and on top of its stack a word
-- that does not ask for the virtual 8086 mode), then for each scancode and cursor the handler returns
-- with the cursor as it was, its only calls end the interrupt, and the master has none in service;
-- and `iret` at the stub's end never goes back to the loop: with whatever descriptor table, it faults
-- or leaves for the ring 2 or 3.
pub first_key :
    (m : Memory) (kernel_end idt_addr isr33_addr mbd : ℕ) (buffer : Bytes) (s : Idt)
    (es : List MemoryMap) (p : Pics) (gdt : Bytes) (c : Cpu) (back w scancode : ℕ) (rest : Bytes)
    (scratch : Cpu → ℕ × ℕ × ℕ) (cursor : Cursor)
    → HasMap m mbd es
    → IsRoomy kernel_end (longest no_region es)
    → isr33_addr < 2 ^ 32
    → length s.table ≡ 256
    → length buffer ≡ 11
    → IsCpu c
    → c.ds ≡ 0x10
    → c.eflags / 2 % 2 ≡ 1
    → c.stack ≡ bytes_32 w ++ rest
    → w < 2 ^ 32
    → w / 2 ^ 17 % 2 ≡ 0
    → (t : Trace) × (b : Booted) × (e : IdtEntry) × (called : Cpu) × (n : ℕ) × (after : Return)
      × (kernel_main m kernel_end idt_addr isr33_addr mbd buffer s ≡ returned t b)
      × (b.idt.enabled ≡ true)
      × (is_masked (drive t p) 1 ≡ false)
      × (get_elem? b.idt.table (vector (drive t p) 1) ≡ some e)
      × IsKeyboardGate isr33_addr e
      × (run_code (isr_noerr_stub 33 save) (interrupt isr33_addr c) ≡ some called)
      × (argument (push_32 back called) ≡ some n)
      × (isr_handler n scancode cursor ≡ returned (end_calls c.edi) cursor)
      × ((drive (end_calls c.edi) (accept 1 (drive t p))).master.in_service ≡ false)
      × (run_stub gdt
            (isr_noerr_stub 33 (isr_handler_common back (cdecl scratch)))
            (interrupt isr33_addr c)
          ≡ some after)
      × ((after ≡ faults) ⊎ (after ≡ leaves (2 + c.eflags % 2)))
first_key m kernel_end idt_addr isr33_addr mbd buffer s es p gdt c back w scancode rest scratch
      cursor map roomy stub size room is_cpu ds bit_1 top word no_virtual =
    let (t, b, _, _, _, _, _, _, starts, installed, _, _, _, _, _, _) =
      kernel_main_starts m kernel_end idt_addr isr33_addr mbd buffer s es map roomy stub size
        room in
    let ready : IsReady (drive t p) =
      subst (λ u. IsReady (drive u p)) (ap trace_of starts)
        (kernel_main-IsReady m kernel_end idt_addr isr33_addr mbd buffer s es p map roomy room) in
    let (called, n, saves, reads, handles) =
      keyboard_lost c isr33_addr back scancode cursor is_cpu ds in
    let (after, runs, lost) =
      stub_lost gdt c 33 isr33_addr back w rest scratch is_cpu bit_1 top word no_virtual in
    (
      t,
      b,
      installed.entry,
      called,
      n,
      after,
      starts,
      installed.enabled,
      rw ready.master_masked refl,
      ap (get_elem? b.idt.table) (vector_lem (drive t p) 1 ready (omega arith)) ∙ installed.at_33,
      installed.keyboard,
      saves,
      reads,
      handles,
      ends_line_1 c.edi (drive t p),
      runs,
      lost,
    )
