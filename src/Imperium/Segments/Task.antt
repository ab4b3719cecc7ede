-- ===== src/Imperium/Segments/Task.antt =====
-- What `tss_install` leaves in its two objects, and its end.
use micro_kernel.Base.{
  false, ℕ, ◌^◌, ◌<◌, ◌≡◌, refl, sym, ap, ◌∙◌, some, Bytes, get_or, arith, List, length,
  listed-get_or, subst, u16,
}
use micro_kernel.Imperium.Repeat.{rep_stos}
use micro_kernel.Imperium.Segments.{
  Segments, gdt_tss, gdt_install, describe_tss, fill_tss, tss_install,
}
use micro_kernel.Imperium.Segments.Flat.{base_of, limit_of}

-- The two fields of the task state, by the manual: ESP0 at byte 4, and SS0 at byte 8.
abbrev pub esp0 : List ℕ → ℕ
esp0 w = get_or w 1 0

abbrev pub ss0 : List ℕ → ℕ
ss0 w = u16 (get_or w 2 0)

pub describe_lem :
    (tss_addr : ℕ)
    → tss_addr < 2 ^ 32
    → (b : Bytes) × (describe_tss tss_addr gdt_tss ≡ some b)
      × (base_of b ≡ tss_addr)
      × (limit_of b ≡ 104)
unfolding describe_tss
describe_lem tss_addr h = (_, refl, omega arith, refl)

fill_lem :
    (top : ℕ) (w₀ : List ℕ)
    → length w₀ ≡ 26
    → (w : List ℕ) × (fill_tss top w₀ ≡ some w) × (esp0 w ≡ 0x10) × (ss0 w ≡ u16 top)
unfolding fill_tss rep_stos
fill_lem top w₀ size =
    subst (λ v. (w : List ℕ) × (fill_tss top v ≡ some w) × (esp0 w ≡ 0x10) × (ss0 w ≡ u16 top))
      (sym (listed-get_or w₀ 26 0 size)) (_, refl, refl, refl)

-- After `gdt_install`, and with the two objects as they are laid out, `tss_install` writes a
-- descriptor with the address of the task state and the limit 104; the word 0x10 that is meant for
-- SS0 is where the processor has ESP0, and the stack that is meant for ESP0 is where it has SS0;
-- and the last step, the load of the task register, is a general protection fault, since the
-- descriptor is not within the table's limit.
pub tss_faults :
    (tss_addr top : ℕ) (s : Segments)
    → tss_addr < 2 ^ 32
    → s.tss_descriptor ≡ gdt_tss
    → length s.tss_entry ≡ 26
    → (s' : Segments) × (b : Bytes) × (w : List ℕ) × (gdt_install s ≡ some s')
      × (describe_tss tss_addr s'.tss_descriptor ≡ some b)
      × (base_of b ≡ tss_addr)
      × (limit_of b ≡ 104)
      × (fill_tss top s'.tss_entry ≡ some w)
      × (esp0 w ≡ 0x10)
      × (ss0 w ≡ u16 top)
      × (tss_install tss_addr top s'
          ≡ some (record s' { tss_descriptor = b; tss_entry = w }, false))
unfolding gdt_install tss_install
tss_faults tss_addr top s h at_start size =
    let (b, described, base, limit) = describe_lem tss_addr h in
    let (w, filled, esp, ss) = fill_lem top s.tss_entry size in
    let written = ap (describe_tss tss_addr) at_start ∙ described in
    (_, b, w, refl, written, base, limit, filled, esp, ss, rw (written, filled) refl)
