-- ===== src/Imperium/Start/Simple.antt =====
-- The first version of the start.
use micro_kernel.Base.{append-nil, ℕ, ◌^◌, ◌<◌, ◌≡◌, refl, ap, true, some, length, get_elem?}
use micro_kernel.Console.{Trace, returned}
use micro_kernel.Interrupts.{IdtEntry}
use micro_kernel.Interrupts.Gate.{handler_of}
use micro_kernel.Interrupts.Pic.{Pics, drive, is_masked}
use micro_kernel.Imperium.Idt.Routes.{idt_routes}
use micro_kernel.Imperium.Segments.Flat.{IsFlat, segments-IsFlat}
use micro_kernel.Imperium.Start.{Places, Machine, kmain, start_simple}

-- From a table of 256 entries, 32-bit stub addresses, and the controllers in any state: the first
-- version calls `kmain` with the EBX that the boot loader left, with flat code and data segments,
-- the interrupt table loaded and interrupts enabled, a gate to its own stub for each vector below
-- 48, and every line of the controllers masked.
pub start_simple-kmain :
    (a : Places) (m : Machine) (p : Pics)
    → length m.idt.table ≡ 256
    → ((n : ℕ) → a.stub n < 2 ^ 32)
    → (t : Trace) × (m' : Machine) × (start_simple a m ≡ returned t (kmain m.ebx m'))
      × IsFlat m'.segments.cs 0x9A m'.segments
      × IsFlat m'.segments.ds 0x92 m'.segments
      × (m'.idt.loaded ≡ true)
      × (m'.interrupts ≡ true)
      × ((n : ℕ)
          → n < 48
          → (e : IdtEntry) × (get_elem? m'.idt.table n ≡ some e) × (handler_of e ≡ a.stub n))
      × ((i : ℕ) → i < 16 → is_masked (drive t p) i ≡ true)
unfolding start_simple
start_simple-kmain a m p size fits =
    let (segments, installs, code, data_flat, _, _, _, _) = segments-IsFlat m.segments in
    let (t, idt, routes, loaded, _, _, _, gates, _, lines) =
      idt_routes a.stub a.idt_start m.idt p size fits in
    let m' : Machine = record m { segments = segments; idt = idt; interrupts = true } in
    (
      t,
      m',
      rw (installs, routes) (ap (λ u. returned u (kmain m.ebx m')) (append-nil t)),
      code,
      data_flat,
      loaded,
      refl,
      λ n h. ((gates n h).0, (gates n h).1, (gates n h).2),
      λ i h. (lines i h).1,
    )
