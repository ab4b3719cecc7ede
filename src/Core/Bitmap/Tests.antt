-- ===== src/Core/Bitmap/Tests.antt =====
-- The theorems at inputs that meet their hypotheses.
use micro_kernel.Base.{◌≡◌, refl, [], ◌∷◌, false, some, arith}
use micro_kernel.Core.Bitmap.{Bitmap, initial, pmm_bitmap_set}
use micro_kernel.Core.Bitmap.Empty.{empty, empty-IsValid, empty-Holds}
use micro_kernel.Core.Bitmap.Refine.{mark, clear, run, after_all, run_refines_set}
use mathlib.Core.Quot
use micro_kernel.Base.{Bool, ◌≤◌}
use micro_kernel.Core.Bitmap.{max_pages}
use micro_kernel.Core.Bitmap.Refine.{Op, step, after_op}
use micro_kernel.Core.Bitmap.Sets.{
  Managed, Page, PageSet, members, bitmap_of, apply, update, extend, bitmaps_as_sets,
}
use micro_kernel.Core.Bitmap.Change.{IsValid, Holds}

untouched : pmm_bitmap_set 7 initial ≡ some initial
unfolding pmm_bitmap_set
untouched = refl

run_refines_set_example :
    (s' : Bitmap) × (run (mark 9 ∷ mark 12 ∷ clear 9 ∷ []) (empty 1000) ≡ some s')
    × IsValid s'
    × Holds s' (after_all (mark 9 ∷ mark 12 ∷ clear 9 ∷ []) (λ q. false))
    × (s'.total_pages ≡ 1000)
run_refines_set_example =
    run_refines_set (mark 9 ∷ mark 12 ∷ clear 9 ∷ []) (empty 1000) (λ q. false)
      (empty-IsValid 1000 (omega arith)) (empty-Holds 1000 (omega arith))

room : 1000 ≤ max_pages
room = omega arith

bitmaps_as_sets_example :
    ((f : Page 1000 → Bool) → members 1000 (Quot.mk (bitmap_of 1000 room f)) ≡ f)
    × ((x : PageSet 1000) → Quot.mk (bitmap_of 1000 room (members 1000 x)) ≡ x)
    × ((op : Op) (s : Managed 1000)
        → (step op s.0 ≡ some (apply 1000 op s).0)
          × (update 1000 op (Quot.mk s) ≡ Quot.mk (apply 1000 op s)))
    × ((op : Op) (x : PageSet 1000) (p : Page 1000)
        → members 1000 (update 1000 op x) p ≡ after_op op (extend 1000 (members 1000 x)) p.0)
bitmaps_as_sets_example = bitmaps_as_sets 1000 room
