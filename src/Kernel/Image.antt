-- ===== src/Kernel/Image.antt =====
-- kernel/linker.ld: where the linker puts the sections, and the symbol `end`. The linker follows its
-- manual; sections that the script does not name are not in the image.
pub mod Order
pub mod Whole
mod Tests
use micro_kernel.Base.{
  ℕ, ◌+◌, ◌-◌, ◌*◌, ◌/◌, ◌%◌, ◌≤◌, ◌<◌, ◌≡◌, List, [], ◌∷◌, ◌++◌, Bool, true, false, if◌then◌else◌,
  arith,
}
use Prim.Native.Nat.{max}

-- The sections that the script names.
pub data Name : Type 0 where
  multiboot text rodata initialized bss : Name

-- A section of an object file, and one in the image.
pub record Input : Type 0 where
  pub name : Name
  pub size : ℕ
  pub align : ℕ

pub record Placed : Type 0 where
  pub input : Input
  pub start : ℕ

-- The next address from `dot` on that is a multiple of the alignment.
unfoldable pub round_up : ℕ → ℕ → ℕ
round_up dot align = (dot + (align - 1)) / align * align

abbrev pub is : Name → Name → Bool
is multiboot multiboot = true
is text text = true
is rodata rodata = true
is initialized initialized = true
is bss bss = true
is _ _ = false

-- `*(.name)`: the sections of a name in all files, in the order of the command line.
unfoldable pub select : Name → List Input → List Input
select n [] = []
select n (x ∷ xs) = let rest = select n xs in if is n x.name then x ∷ rest else rest

-- One section behind the other, with the address behind the last.
unfoldable pub place : List Input → ℕ → List Placed × ℕ
place [] dot = ([], dot)
place (x ∷ xs) dot =
    let start = round_up dot x.align in
    let (ys, dot') = place xs (start + x.size) in (record { input = x; start = start } ∷ ys, dot')

abbrev pub widest : List Input → ℕ
widest [] = 1
widest (x ∷ xs) = max x.align (widest xs)

-- An output section begins at a multiple of the widest alignment in it.
unfoldable pub output : List Input → ℕ → List Placed × ℕ
output xs dot = place xs (round_up dot (widest xs))

-- The script: the sections of the image, and `end`.
unfoldable pub link : List Input → List Placed × ℕ
link xs =
    let (text_out, dot₁) = output (select multiboot xs ++ select text xs) 0x00100000 in
    let (rodata_out, dot₂) = output (select rodata xs) dot₁ in
    let (data_out, dot₃) = output (select initialized xs) dot₂ in
    let (bss_out, dot₄) = output (select bss xs) dot₃ in
    (text_out ++ (rodata_out ++ (data_out ++ bss_out)), dot₄)
