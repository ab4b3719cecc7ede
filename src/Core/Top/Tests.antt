-- ===== src/Core/Top/Tests.antt =====
-- `top` on a small table.
use micro_kernel.Base.{ℕ, ◌≡◌, ◌==◌, if◌then◌else◌, [], ◌∷◌, ◌++◌, map, arith}
use micro_kernel.Console.{returned}
use micro_kernel.Core.Top.{ready, running, Store, cmd_top}
use micro_kernel.Core.Top.Rows.{IsPid, row, header, cmd_top_lem}

-- The process at 4096 is the parent of all others.
abbrev family : Store
family ptr =
    if ptr == 4096
    then record { pid = 1; state = running; parent = 0 }
    else record { pid = 2; state = ready; parent = 4096 }

family_ids : (q : ℕ) → IsPid (family q).pid
family_ids q = ground arith

cmd_top_lem_example :
    cmd_top family (4096 ∷ 0 ∷ 8192 ∷ [])
    ≡ returned (header ++ map (row family) (4096 ∷ 8192 ∷ [])) 0
cmd_top_lem_example = cmd_top_lem family (4096 ∷ 0 ∷ 8192 ∷ []) family_ids
