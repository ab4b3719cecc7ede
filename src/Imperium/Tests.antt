-- ===== src/Imperium/Tests.antt =====
-- The start-up code on a machine after the boot loader.
use micro_kernel.Base.{
  ℕ, ◌+◌, ◌*◌, ◌%◌, ◌<◌, ◌≡◌, refl, [], ◌∷◌, some, arith, true, false, replicate, length-replicate,
  get_elem?, Bytes, if◌then◌else◌, ◌==◌,
}
use micro_kernel.Console.{Trace, returned}
use micro_kernel.Interrupts.{IdtEntry, zero_entry}
use micro_kernel.Imperium.E820.{Reply, smap, detect_memory}
use micro_kernel.Imperium.E820.Map.{more, last, detect_memory-without_last}
use micro_kernel.Imperium.Features.{Leaf}
use micro_kernel.Imperium.Paging.{Paging}
use micro_kernel.Imperium.Segments.{gdt_tss}
use micro_kernel.Imperium.Start.{Places, Machine, kmain, start_simple}
use micro_kernel.Imperium.Start.Simple.{start_simple-kmain}
use micro_kernel.Imperium.Segments.Flat.{IsFlat}
use micro_kernel.Interrupts.Gate.{handler_of}
use micro_kernel.Interrupts.Pic.{Chip, Expects, drive, is_masked}
use micro_kernel.Imperium.Vga.{Vga}

abbrev blank : Vga
blank = record {
  cells = replicate 2000 0x0F20;
  outside = [];
  cursor_x = 0;
  cursor_y = 0;
  text_attribute = 0x0F;
}

abbrev unmapped : Paging
unmapped = record {
  page_directory = replicate 1024 0;
  first_page_table = replicate 1024 0;
  cr0 = 1;
  cr3 = 0;
}

abbrev cpuid : ℕ → Leaf
cpuid n = record { eax = 0x6F6; ebx = 0x800; ecx = 0; edx = 0x2000000 }

abbrev places : Places
places = record {
  stub = λ n. 0x100000 + n % 256 * 16;
  idt_start = 0x107000;
  tss_entry = 0x108000;
  kernel_stack_top = 0x10C000;
  page_directory = 0x105000;
  first_page_table = 0x106000;
}

abbrev booted : Machine
booted = record {
  ebx = 0x9500;
  cr4 = 0;
  interrupts = true;
  segments = record {
    limit = 0;
    table = [];
    cs = 8;
    ds = 16;
    es = 16;
    fs = 16;
    gs = 16;
    ss = 16;
    tr = 0;
    tss_descriptor = gdt_tss;
    tss_entry = replicate 26 0;
  };
  idt = record {
    table = replicate 256 zero_entry;
    limit = 0;
    base = 0;
    loaded = false;
    interrupts = false;
  };
  paging = unmapped;
  vga = blank;
}

-- A BIOS with two regions.
abbrev bios : ℕ → Reply
bios c = record {
  carry = false;
  eax = smap;
  ebx = if c == 0 then 1 else 0;
  entry = if c == 0 then replicate 20 1 else replicate 20 2;
}

detect_memory-without_last_example :
    ((detect_memory bios 7 (replicate 128 [])).0 ≡ 7)
    × ((detect_memory bios 7 (replicate 128 [])).1.count ≡ 1)
    × ((i : ℕ)
        → i < 128
        → i < 1
        → get_elem? (detect_memory bios 7 (replicate 128 [])).1.map i
          ≡ get_elem? (replicate 20 1 ∷ []) i)
    × ((e : Bytes)
        → some (replicate 20 2) ≡ some e
        → 1 < 128
        → get_elem? (detect_memory bios 7 (replicate 128 [])).1.map 1 ≡ some e)
detect_memory-without_last_example =
    detect_memory-without_last bios 7 (replicate 128 []) (replicate 20 1 ∷ [])
      (some (replicate 20 2))
      (more 1 (replicate 20 1) [] (some (replicate 20 2)) refl (omega arith)
        (last (replicate 20 2) refl))
      refl

abbrev chip : Chip
chip = record { expects = Expects.mask; offset = 8; cascade = 4; masked = 0; in_service = true }

start_simple-kmain_example :
    (t : Trace) × (m' : Machine) × (start_simple places booted ≡ returned t (kmain 0x9500 m'))
    × IsFlat m'.segments.cs 0x9A m'.segments
    × IsFlat m'.segments.ds 0x92 m'.segments
    × (m'.idt.loaded ≡ true)
    × (m'.interrupts ≡ true)
    × ((n : ℕ)
        → n < 48
        → (e : IdtEntry) × (get_elem? m'.idt.table n ≡ some e) × (handler_of e ≡ places.stub n))
    × ((i : ℕ) → i < 16 → is_masked (drive t (record { master = chip; slave = chip })) i ≡ true)
start_simple-kmain_example =
    start_simple-kmain places booted (record { master = chip; slave = chip })
      (length-replicate 256 zero_entry) (λ n. omega arith)
