-- ===== src/Imperium/Repeat.antt =====
-- The string instructions `rep stos` and `rep movs`, by the processor's manual, on an array of
-- cells of the instruction's size; the indices are in cells, and the direction flag is clear.
use micro_kernel.Base.{
  ℕ, zero, suc, ◌+◌, ◌-◌, ◌≤◌, ◌<◌, ◌≡◌, ◌==◌, refl, ◌∙◌, List, Option, some, ◌>>=◌, arith,
  get_elem?, get_elem?-eq-get_or, get_or, set, get_or-set_self, get_or-set_ne, length-set, store,
  store-eq-set, length, leb, ltb, ◌&&◌, if◌then◌else◌,
}

-- With the count that is left. `none` is an access outside of the array.
unfoldable pub rep_stos : ℕ → ℕ → ℕ → List ℕ → Option (List ℕ)
rep_stos zero di a cells = some cells
rep_stos (suc left) di a cells = store cells di a >>= rep_stos left (di + 1) a

unfoldable pub rep_movs : ℕ → ℕ → ℕ → List ℕ → Option (List ℕ)
rep_movs zero si di cells = some cells
rep_movs (suc left) si di cells = do
  v ← get_elem? cells si
  cells' ← store cells di v
  rep_movs left (si + 1) (di + 1) cells'

pub get_or-set :
    (cells : List ℕ) (i v j : ℕ)
    → i < length cells
    → get_or (set cells i v) j 0 ≡ (if j == i then v else get_or cells j 0)
get_or-set cells i v j h = ground (arith, get_or-set_self cells i v 0, get_or-set_ne cells i j v 0)

-- The cells from `di` on hold the value, and no other changes.
pub rep_stos_lem :
    (left di a : ℕ) (cells : List ℕ)
    → di + left ≤ length cells
    → (cells' : List ℕ) × (rep_stos left di a cells ≡ some cells')
      × (length cells' ≡ length cells)
      × ((i : ℕ)
          → get_or cells' i 0 ≡ (if leb di i && ltb i (di + left) then a else get_or cells i 0))
unfolding rep_stos
rep_stos_lem zero di a cells h = (cells, refl, refl, λ i. ground arith)
rep_stos_lem (suc left) di a cells h =
    let stored = set cells di a in
    let size = length-set cells di a in
    let (cells', runs, same, shows) = rep_stos_lem left (di + 1) a stored (omega arith) in
    (
      cells',
      rw (store-eq-set cells di a (omega arith)) runs,
      same ∙ size,
      λ i. ground (arith, shows i, get_or-set cells di a i),
    )

-- A copy to lower indices reads each cell before it is written.
pub rep_movs_lem :
    (left si di : ℕ) (cells : List ℕ)
    → si + left ≤ length cells
    → di < si
    → (cells' : List ℕ) × (rep_movs left si di cells ≡ some cells')
      × (length cells' ≡ length cells)
      × ((i : ℕ)
          → get_or cells' i 0 ≡ (
              if leb di i && ltb i (di + left)
              then get_or cells (i + (si - di)) 0
              else get_or cells i 0))
unfolding rep_movs
rep_movs_lem zero si di cells h lower = (cells, refl, refl, λ i. ground arith)
rep_movs_lem (suc left) si di cells h lower =
    let v = get_or cells si 0 in
    let stored = set cells di v in
    let size = length-set cells di v in
    let (cells', runs, same, shows) =
      rep_movs_lem left (si + 1) (di + 1) stored (omega arith) (omega arith) in
    (
      cells',
      rw (get_elem?-eq-get_or cells si 0 (omega arith), store-eq-set cells di v (omega arith)) runs,
      same ∙ size,
      λ i. ground (arith, shows i, get_or-set cells di v i, get_or-set cells di v (i + (si - di))),
    )
