-- ===== src/Strings/Strcmp.antt =====
-- `strcmp`: both pointers advance while the bytes agree and are not the terminator.
pub mod Laws
use micro_kernel.Base.{[], ◌∷◌, Option, none, some, ◌==◌, ◌&&◌, not, if◌then◌else◌, Bytes}
use micro_kernel.Base.Int.{ℤ, sub_ℕ}

-- `none` is a read behind the end of an object.
unfoldable pub strcmp : Bytes → Bytes → Option ℤ
strcmp [] s2 = none
strcmp (a ∷ s1) [] = none
strcmp (a ∷ s1) (b ∷ s2) = if not (a == 0) && a == b then strcmp s1 s2 else some (sub_ℕ a b)
