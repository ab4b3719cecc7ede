-- ===== src/Core/Bitmap/Sets.antt =====
-- The bitmaps of a number of pages, up to what the test answers, are the sets of these pages.
use micro_kernel.Base.{
  ℕ, zero, suc, ◌≤◌, ◌<◌, ◌≡◌, refl, ap, sym, ◌∙◌, Bool, true, false, inl, inr, Bool-cases, ◌&&◌,
  ◌||◌, not, ◌==◌, ltb, leb, if◌then◌else◌, Option, none, some, arith, ◌/◌, length,
  get_elem?-eq-get_or,
}
use mathlib.Core.Path.{fun_ext}
use mathlib.Core.HLevel.{Σ_prop_path}
use mathlib.Core.Quot
use mathlib.Core.Quot.{Quot, Quot-set}
use native.Mathlib.Bridge.{le_prop}
use native.Mathlib.Decide.{dec_lt}
use micro_kernel.Core.Bitmap.{Bitmap, max_pages, pmm_bitmap_test}
use micro_kernel.Core.Bitmap.Change.{IsValid, Holds}
use micro_kernel.Core.Bitmap.Empty.{empty, empty-IsValid, empty-Holds}
use micro_kernel.Core.Bitmap.Refine.{Op, mark, clear, step, after_op, steps}

-- The valid bitmaps that count `n` pages.
abbrev pub Managed : ℕ → Type 0
Managed n = (s : Bitmap) × IsValid s × (s.total_pages ≡ n)

abbrev pub SameAnswers : (n : ℕ) → Managed n → Managed n → Type 0
SameAnswers n s t = (q : ℕ) → pmm_bitmap_test q s.0 ≡ pmm_bitmap_test q t.0

abbrev pub PageSet : ℕ → Type 0
PageSet n = Quot (SameAnswers n)

abbrev pub Page : ℕ → Type 0
Page n = (q : ℕ) × (q < n)

abbrev answer : Option Bool → Bool
answer none = true
answer (some b) = b

abbrev pub is_used : Bitmap → ℕ → Bool
is_used s q = answer (pmm_bitmap_test q s)

pub is_used-Holds : (s : Bitmap) → IsValid s → Holds s (is_used s)
unfolding pmm_bitmap_test
is_used-Holds s h q = elim (Bool-cases (leb s.total_pages q)) [
  | inl e ↦ rw e refl
  | inr e ↦
      let inside : q / 8 < length s.bytes = ground (arith, h.size, h.count) in
      rw (e, get_elem?-eq-get_or s.bytes (q / 8) 0 inside) refl
]

abbrev pub members : (n : ℕ) → PageSet n → Page n → Bool
members n = Quot.lift (hlevel) (λ s p. is_used s.0 p.0) (λ s t h. fun_ext (λ p. ap answer (h p.0)))

-- One operation of the code on a bitmap.
abbrev pub apply : (n : ℕ) → Op → Managed n → Managed n
apply n op s =
    let r = steps op s.0 (is_used s.0) s.1 (is_used-Holds s.0 s.1) in (r.0, r.2, r.4 ∙ s.2)

step-apply : (n : ℕ) (op : Op) (s : Managed n) → step op s.0 ≡ some (apply n op s).0
step-apply n op s = (steps op s.0 (is_used s.0) s.1 (is_used-Holds s.0 s.1)).1

answers-apply :
    (n : ℕ) (op : Op) (s : Managed n) (q : ℕ)
    → pmm_bitmap_test q (apply n op s).0
      ≡ some (if leb n q then true else after_op op (is_used s.0) q)
answers-apply n op s q =
    (steps op s.0 (is_used s.0) s.1 (is_used-Holds s.0 s.1)).3 q
    ∙ ap (λ m. some (if leb m q then true else after_op op (is_used s.0) q)) (apply n op s).2

-- An operation looks at one page at a time.
after_op-local :
    (op : Op) (used used' : ℕ → Bool) (q : ℕ)
    → used q ≡ used' q
    → after_op op used q ≡ after_op op used' q
after_op-local (mark p) used used' q h = ap (λ b. (p == q) || b) h
after_op-local (clear p) used used' q h = ap (λ b. not (p == q) && b) h

pub apply-SameAnswers :
    (n : ℕ) (op : Op) (s t : Managed n)
    → SameAnswers n s t
    → SameAnswers n (apply n op s) (apply n op t)
apply-SameAnswers n op s t h q =
    answers-apply n op s q
    ∙ ap (λ b. some (if leb n q then true else b))
        (after_op-local op (is_used s.0) (is_used t.0) q (ap answer (h q)))
    ∙ sym (answers-apply n op t q)

-- The same on the sets of pages.
abbrev pub update : (n : ℕ) → Op → PageSet n → PageSet n
update n op =
    Quot.lift Quot-set (λ s. Quot.mk (apply n op s))
      (λ s t h. Quot.sound (apply-SameAnswers n op s t h))

is_used-apply :
    (n : ℕ) (op : Op) (s : Managed n) (q : ℕ)
    → q < n
    → is_used (apply n op s).0 q ≡ after_op op (is_used s.0) q
is_used-apply n op s q h =
    let inside : leb n q ≡ false = ground arith in
    ap answer (answers-apply n op s q) ∙ rw inside refl

-- The set as a bitmap: the pages below `k` are marked, one after the other.
abbrev marked : (n k : ℕ) → (ℕ → Bool) → Managed n → Managed n
marked n zero used s = s
marked n (suc k) used s = let r = marked n k used s in if used k then apply n (mark k) r else r

marked-is_used :
    (n k : ℕ) (used : ℕ → Bool) (s : Managed n) (q : ℕ)
    → q < n
    → is_used (marked n k used s).0 q ≡ ((ltb q k && used q) || is_used s.0 q)
marked-is_used n zero used s q h = ground arith
marked-is_used n (suc k) used s q h = elim (Bool-cases (used k)) [
  | inl e ↦ rw e (
      is_used-apply n (mark k) (marked n k used s) q h
      ∙ ap (λ b. (k == q) || b) (marked-is_used n k used s q h)
      ∙ ground arith)
  | inr e ↦ rw e (marked-is_used n k used s q h ∙ ground arith)
]

pub extend : (n : ℕ) → (Page n → Bool) → ℕ → Bool
extend n f q = elim (dec_lt q n) [ yes h ↦ f (q, h) | no _ ↦ false ]

extend_lem : (n : ℕ) (f : Page n → Bool) (p : Page n) → extend n f p.0 ≡ f p
unfolding extend
extend_lem n f p =
    elim (dec_lt p.0 n) as (λ d. elim d [ yes h ↦ f (p.0, h) | no _ ↦ false ] ≡ f p) [
      | yes h ↦ ap f (Σ_prop_path (λ q. le_prop) refl)
      | no out ↦ absurd (out p.1)
    ]

pub bitmap_of : (n : ℕ) → n ≤ max_pages → (Page n → Bool) → Managed n
bitmap_of n room f = marked n n (extend n f) (empty n, empty-IsValid n room, refl)

or_false : (b : Bool) → ((true && b) || false) ≡ b
or_false true = refl
or_false false = refl

members-bitmap_of :
    (n : ℕ) (room : n ≤ max_pages) (f : Page n → Bool)
    → members n (Quot.mk (bitmap_of n room f)) ≡ f
unfolding bitmap_of
members-bitmap_of n room f = fun_ext (λ p.
    let inside : leb n p.0 ≡ false = ground (arith, p.1) in
    let below : ltb p.0 n ≡ true = ground (arith, p.1) in
    let free : is_used (empty n) p.0 ≡ false =
      ap answer (empty-Holds n room p.0) ∙ rw inside refl in
    marked-is_used n n (extend n f) (empty n, empty-IsValid n room, refl) p.0 p.1
    ∙ rw (free, below, extend_lem n f p) (or_false (f p)))

test_lem :
    (n : ℕ) (s : Managed n) (q : ℕ)
    → pmm_bitmap_test q s.0 ≡ some (if leb n q then true else is_used s.0 q)
test_lem n s q =
    is_used-Holds s.0 s.1 q ∙ ap (λ m. some (if leb m q then true else is_used s.0 q)) s.2

-- Two bitmaps with the same members give the same answers, since a page beyond the count is in use.
same_members :
    (n : ℕ) (s t : Managed n)
    → ((p : Page n) → is_used s.0 p.0 ≡ is_used t.0 p.0)
    → SameAnswers n s t
same_members n s t h q = elim (Bool-cases (leb n q)) [
  | inl e ↦ rw (test_lem n s q, test_lem n t q, e) refl
  | inr e ↦ rw (test_lem n s q, test_lem n t q, e) (ap some (h (q, ground arith)))
]

-- For each number of pages that the bitmap has room for, the valid bitmaps with this count, up to
-- the answers of the test, are the sets of these pages: from a set to a bitmap and back is the set,
-- and from a bitmap to the set and back is the bitmap. On each bitmap the code's set and unset have
-- a result, and bitmaps with the same answers have results with the same answers, so that the two
-- are operations on the quotient. There they put the page into the set and take it out.
pub bitmaps_as_sets :
    (n : ℕ) (room : n ≤ max_pages)
    → ((f : Page n → Bool) → members n (Quot.mk (bitmap_of n room f)) ≡ f)
      × ((x : PageSet n) → Quot.mk (bitmap_of n room (members n x)) ≡ x)
      × ((op : Op) (s : Managed n)
          → (step op s.0 ≡ some (apply n op s).0)
            × (update n op (Quot.mk s) ≡ Quot.mk (apply n op s)))
      × ((op : Op) (x : PageSet n) (p : Page n)
          → members n (update n op x) p ≡ after_op op (extend n (members n x)) p.0)
bitmaps_as_sets n room = (
  members-bitmap_of n room,
  Quot.ind (λ x. Quot-set _ _)
      (λ s. Quot.sound (
        same_members n (bitmap_of n room (members n (Quot.mk s))) s
          (λ p. ap (λ f. f p) (members-bitmap_of n room (members n (Quot.mk s)))))),
  λ op s. (step-apply n op s, refl),
  λ op.
      Quot.ind (λ x. hlevel)
        (λ s p.
          is_used-apply n op s p.0 p.1
          ∙ after_op-local op (is_used s.0) (extend n (members n (Quot.mk s))) p.0
              (sym (extend_lem n (members n (Quot.mk s)) p))),
)
