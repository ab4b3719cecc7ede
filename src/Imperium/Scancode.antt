-- ===== src/Imperium/Scancode.antt =====
-- main.core.asm, part 12: the wait for the keyboard. What its two ports give is a parameter.
use micro_kernel.Base.{
  ℕ, zero, suc, ◌+◌, ◌%◌, ◌<◌, ◌≡◌, refl, ap, ◌∙◌, ◌==◌, if◌then◌else◌, false, true, Option, none,
  some, arith,
}

-- `status i` is the `i`-th byte that the status port gives, and `data_at i` the data port's byte
-- after it. `none` is a wait that takes longer than the rounds that are left.
unfoldable pub keyboard_read_scancode : ℕ → (ℕ → ℕ) → (ℕ → ℕ) → ℕ → Option ℕ
keyboard_read_scancode zero status data_at i = none
keyboard_read_scancode (suc fuel) status data_at i =
    let waits = keyboard_read_scancode fuel status data_at (i + 1) in
    if status i % 2 == 0 then waits else some (data_at i)

shifted : (i j : ℕ) → i + 1 + j ≡ i + suc j
shifted i j = omega arith

-- If the status has its bit 0 clear in the reads from the `i`-th on to the one before the `i +
-- n`-th, and set in that one, then `n` more rounds than one are enough, and the scancode is the
-- byte that the data port has then.
pub reads_first :
    (n fuel i : ℕ) (status data_at : ℕ → ℕ)
    → n < fuel
    → ((j : ℕ) → j < n → status (i + j) % 2 ≡ 0)
    → status (i + n) % 2 ≡ 1
    → keyboard_read_scancode fuel status data_at i ≡ some (data_at (i + n))
unfolding keyboard_read_scancode
reads_first n zero i status data_at enough empty full = absurd (omega arith)
reads_first zero (suc fuel) i status data_at enough empty full =
    let here : i + 0 ≡ i = omega arith in
    let now : (status i % 2 == 0) ≡ false = ground (arith, full, ap status here) in
    rw (now, here) refl
reads_first (suc n) (suc fuel) i status data_at enough empty full =
    let here : i + 0 ≡ i = omega arith in
    let first = empty 0 (omega arith) in
    let waits : (status i % 2 == 0) ≡ true = ground (arith, first, ap status here) in
    let shift = λ (j : ℕ). ap status (shifted i j) in
    rw waits (
      reads_first n fuel (i + 1) status data_at (omega arith)
        (λ j b. ap (λ v. v % 2) (shift j) ∙ empty (suc j) (omega arith))
        (ap (λ v. v % 2) (shift n) ∙ full)
      ∙ ap (λ k. some (data_at k)) (shifted i n))
