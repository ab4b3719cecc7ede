-- ===== src/Kernel/Boot.antt =====
-- What the start of the kernel does: the states of the parts, and the pages that it shows.
use micro_kernel.Base.{
  ℕ, ◌^◌, ◌<◌, ◌≡◌, refl, ap, sym, subst, List, [], ◌∷◌, ◌++◌, ◌==◌, if◌then◌else◌, length, Bytes,
  codes, bit_and,
}
use micro_kernel.Base.Int.{pos}
use micro_kernel.Pmm.Alloc.Valid.{IsValid, alloc_page-IsValid}
use micro_kernel.Console.Laws.{trace_of, value_of}
use micro_kernel.Console.{
  Trace, returned, halted, write_vga_at, write_char_at, clear_screen, outb, panic,
}
use micro_kernel.Pmm.{Pmm}
use micro_kernel.Pmm.Multiboot.{Memory, MemoryMap, read_info, mboot_flag_mmap}
use micro_kernel.Pmm.Init.{no_region, init_pmm}
use micro_kernel.Pmm.Init.Scan.{longest}
use micro_kernel.Pmm.Init.Result.{HasMap, IsRoomy, init_pmm-IsValid, init_pmm_no_map}
use micro_kernel.Pmm.Alloc.{pmm_alloc_page}
use micro_kernel.Interrupts.{Idt, init_idt, init_pic}
use micro_kernel.Interrupts.Gate.{IsInstalled, init_idt-IsInstalled}
use micro_kernel.Kernel.Hex.{report, read_text-report, hex_to_str-low_first}
use micro_kernel.Kernel.Main.{Booted, print, test_page, kernel_main}

-- The texts that a trace shows in yellow (the attribute 0x0E).
abbrev pub yellow : Trace → List Bytes
yellow [] = []
yellow (write_vga_at text row col attr ∷ t) = if attr == 0x0E then text ∷ yellow t else yellow t
yellow (write_char_at c row col attr ∷ t) = yellow t
yellow (clear_screen ∷ t) = yellow t
yellow (outb port v ∷ t) = yellow t
yellow (panic message ∷ t) = yellow t

-- The calls before the allocator starts.
abbrev start_calls : Trace
start_calls =
    clear_screen
      ∷ write_vga_at (codes "MicroKernel++ v0.3") (pos 0) (pos 0) 0x07
      ∷ write_vga_at (codes "Initializing Interrupts...") (pos 1) (pos 0) 0x07
      ∷ trace_of init_pic
    ++ write_vga_at (codes "OK") (pos 1) (pos 27) 0x02
      ∷ write_vga_at (codes "Initializing Physical Memory Manager...") (pos 2) (pos 0) 0x07
      ∷ []

abbrev pub page_calls : Bytes → ℕ → ℕ → Trace
page_calls label row p =
    write_vga_at label (pos row) (pos 2) 0x0A ∷ write_vga_at (report p) (pos row) (pos 25) 0x0E ∷ []

-- One page: the label, then the address, and the array holds the address for the next.
pub test_page_lem :
    (label : Bytes) (row : ℕ) (s : Pmm) (buffer : Bytes)
    → length buffer ≡ 11
    → test_page label row (s, buffer)
      ≡ returned
          (page_calls label row (pmm_alloc_page s).0)
          ((pmm_alloc_page s).1, report (pmm_alloc_page s).0 ++ 0 ∷ [])
unfolding test_page print
test_page_lem label row s buffer h =
    let p = (pmm_alloc_page s).0 in rw (hex_to_str-low_first p buffer h, read_text-report p) refl

-- With a roomy memory map, a 32-bit stub address, a table of 256 entries and the array of eleven
-- bytes, the start runs through to its final loop: the interrupt table is
-- installed, the allocator is valid after three allocations from the state that `init_pmm` leaves,
-- and the texts in yellow are the reports of the three allocated addresses, in their order.
pub kernel_main_starts :
    (m : Memory) (kernel_end idt_addr isr33_addr mbd : ℕ) (buffer : Bytes) (s : Idt)
    (es : List MemoryMap)
    → HasMap m mbd es
    → IsRoomy kernel_end (longest no_region es)
    → isr33_addr < 2 ^ 32
    → length s.table ≡ 256
    → length buffer ≡ 11
    → (t : Trace) × (b : Booted) × (s0 s1 s2 : Pmm) × (p1 p2 p3 : ℕ) × (kernel_main m kernel_end
          idt_addr isr33_addr mbd buffer s
        ≡ returned t b)
      × IsInstalled idt_addr isr33_addr b.idt
      × (init_pmm m kernel_end mbd ≡ returned [] s0)
      × (pmm_alloc_page s0 ≡ (p1, s1))
      × (pmm_alloc_page s1 ≡ (p2, s2))
      × (pmm_alloc_page s2 ≡ (p3, b.pmm))
      × IsValid b.pmm
      × (yellow t ≡ report p1 ∷ report p2 ∷ report p3 ∷ [])
unfolding kernel_main init_idt init_pic print
kernel_main_starts m kernel_end idt_addr isr33_addr mbd buffer s es map roomy stub size room =
    let started = init_pmm-IsValid m kernel_end mbd es map roomy in
    let s0 = started.0 in
    let one = pmm_alloc_page s0 in
    let two = pmm_alloc_page one.1 in
    let three = pmm_alloc_page two.1 in
    let installed = init_idt-IsInstalled idt_addr isr33_addr s stub size in
    let boot = kernel_main m kernel_end idt_addr isr33_addr mbd buffer s in
    let idt = value_of s (init_idt idt_addr isr33_addr s) in
    let returns : boot ≡ returned (trace_of boot) (record { idt = idt; pmm = three.1 }) =
      rw
        (
          started.1,
          test_page_lem (codes "Page 1 allocated at: ") 9 s0 buffer room,
          test_page_lem (codes "Page 2 allocated at: ") 10 one.1 (report one.0 ++ 0 ∷ []) refl,
          test_page_lem (codes "Page 3 allocated at: ") 11 two.1 (report two.0 ++ 0 ∷ []) refl,
        )
        refl in
    let shown : yellow (trace_of boot) ≡ report one.0 ∷ report two.0 ∷ report three.0 ∷ [] =
      rw
        (
          started.1,
          test_page_lem (codes "Page 1 allocated at: ") 9 s0 buffer room,
          test_page_lem (codes "Page 2 allocated at: ") 10 one.1 (report one.0 ++ 0 ∷ []) refl,
          test_page_lem (codes "Page 3 allocated at: ") 11 two.1 (report two.0 ++ 0 ∷ []) refl,
        )
        refl in
    (
      trace_of boot,
      record { idt = idt; pmm = three.1 },
      s0,
      one.1,
      two.1,
      one.0,
      two.0,
      three.0,
      returns,
      subst (IsInstalled idt_addr isr33_addr) (sym (ap (value_of s) installed.2)) installed.3,
      started.1,
      refl,
      refl,
      refl,
      alloc_page-IsValid (alloc_page-IsValid (alloc_page-IsValid started.2)),
      shown,
    )

-- Where `init_pmm` stops the system, the start ends there, with nothing in yellow.
pub kernel_main_halts :
    (m : Memory) (kernel_end idt_addr isr33_addr mbd : ℕ) (buffer message : Bytes) (s : Idt)
    → init_pmm m kernel_end mbd ≡ halted (panic message ∷ [])
    → (t : Trace) × (kernel_main m kernel_end idt_addr isr33_addr mbd buffer s
        ≡ halted (t ++ panic message ∷ []))
      × (yellow t ≡ [])
unfolding kernel_main init_idt init_pic print
kernel_main_halts m kernel_end idt_addr isr33_addr mbd buffer message s h =
    (start_calls, rw h refl, refl)

-- Without the memory map's flag the start ends in the allocator's panic, with nothing in yellow:
-- no page is allocated, whatever the array, the interrupt table and the rest of memory hold.
pub kernel_main_no_map :
    (m : Memory) (kernel_end idt_addr isr33_addr mbd : ℕ) (buffer : Bytes) (s : Idt)
    → bit_and (read_info m mbd).flags mboot_flag_mmap ≡ 0
    → (t : Trace) × (kernel_main m kernel_end idt_addr isr33_addr mbd buffer s
        ≡ halted (t ++ panic (codes "Memory map not provided by bootloader!") ∷ []))
      × (yellow t ≡ [])
kernel_main_no_map m kernel_end idt_addr isr33_addr mbd buffer s h =
    kernel_main_halts m kernel_end idt_addr isr33_addr mbd buffer _ s
      (init_pmm_no_map m kernel_end mbd h)
