-- ===== src/Core/Panic/Halt.antt =====
-- `kernel_panic`, `panic` and `KASSERT`.
pub mod Steps
pub mod Heading
pub mod Reason
pub mod Ends
pub mod Dump
pub mod Visible
pub mod Assert
use micro_kernel.Base.{
  ℕ, zero, suc, ◌+◌, Bool, true, false, Option, none, some, ◌>>=◌, if◌then◌else◌, Bytes, literal,
}
use micro_kernel.Pmm.Multiboot.{Memory}
use micro_kernel.Core.Panic.{
  Screen, panic_vga_print_char, print, panic_vga_print_hex, print_stack_trace,
}
use micro_kernel.Core.Panic.Line.{line_text}

-- `registers_t`.
pub record Registers : Type 0 where
  pub edi : ℕ
  pub esi : ℕ
  pub ebp : ℕ
  pub esp : ℕ
  pub ebx : ℕ
  pub edx : ℕ
  pub ecx : ℕ
  pub eax : ℕ
  pub eip : ℕ
  pub cs : ℕ
  pub eflags : ℕ
  pub useresp : ℕ
  pub ss : ℕ

-- The loop over one row and the one over the rows, with the rounds that are left.
unfoldable pub clear_row : ℕ → ℕ → ℕ → ℕ → Screen → Option Screen
clear_row zero x y attr s = some s
clear_row (suc left) x y attr s = do
  s' ← panic_vga_print_char b' ' x y attr s
  clear_row left (x + 1) y attr s'

unfoldable pub clear_rows : ℕ → ℕ → ℕ → Screen → Option Screen
clear_rows zero y attr s = some s
clear_rows (suc left) y attr s = do s' ← clear_row 80 0 y attr s; clear_rows left (y + 1) attr s'

-- A name and its register.
unfoldable pub print_register : Bytes → ℕ → ℕ → ℕ → ℕ → ℕ → Screen → Option Screen
print_register name x n x_n y attr s = do
  s' ← print name x y attr s
  panic_vga_print_hex n x_n y 0x0F s'

unfoldable pub register_dump : Registers → Screen → Option Screen
register_dump r s₀ = do
  s₁ ← print (literal "register dump:") 2 6 0x0C s₀
  s₂ ← print_register (literal "eax:") 4 r.eax 9 7 0x0E s₁
  s₃ ← print_register (literal "ebx:") 24 r.ebx 29 7 0x0E s₂
  s₄ ← print_register (literal "ecx:") 44 r.ecx 49 7 0x0E s₃
  s₅ ← print_register (literal "edx:") 64 r.edx 69 7 0x0E s₄
  s₆ ← print_register (literal "esi:") 4 r.esi 9 8 0x0E s₅
  s₇ ← print_register (literal "edi:") 24 r.edi 29 8 0x0E s₆
  s₈ ← print_register (literal "ebp:") 44 r.ebp 49 8 0x0E s₇
  s₉ ← print_register (literal "esp:") 64 r.esp 69 8 0x0E s₈
  s₁₀ ← print_register (literal "eip:") 4 r.eip 9 10 0x0C s₉
  s₁₁ ← print_register (literal "cs:") 24 r.cs 29 10 0x0C s₁₀
  print_register (literal "eflags:") 44 r.eflags 52 10 0x0C s₁₁

-- `ebp` is the register as the function finds it; it serves where no registers are given.
unfoldable pub print_state : Memory → ℕ → Option Registers → Screen → Option Screen
print_state m ebp none s = print_stack_trace m ebp 5 s
print_state m ebp (some r) s = register_dump r s >>= print_stack_trace m r.ebp 5

unfoldable pub heading : Bytes → Bytes → Screen → Option Screen
heading message file s₀ = do
  s₁ ← clear_rows 25 0 0x4F s₀
  s₂ ← print (literal "!!! imperium os kernel panic !!!") 22 1 0x4F s₁
  s₃ ← print (literal "reason:") 2 3 0x0E s₂
  s₄ ← print message 10 3 0x0F s₃
  s₅ ← print (literal "at:") 2 4 0x0E s₄
  print file 6 4 0x0F s₅

-- `line_buf` is what the stack holds in the array of that name.
unfoldable pub print_line_number : ℕ → Bytes → Screen → Option Screen
print_line_number line line_buf s₀ = do
  text ← line_text line line_buf
  s₁ ← print (literal ":") 40 4 0x0F s₀
  print text 42 4 0x0F s₁

-- What the machine does for good: it spins with the screen as it was, or it halts with a screen.
pub data End : Type 0 where
  spins : Screen → End
  halts : Screen → End

-- The result has the new value of `panic_in_progress`.
unfoldable pub kernel_panic :
    Memory → ℕ → Bytes → Bytes → Bytes → ℕ → Option Registers → Bool → Screen → Option (Bool × End)
kernel_panic m ebp line_buf message file line regs panic_in_progress s₀ =
    if panic_in_progress then some (true, spins s₀) else (do
      s₁ ← heading message file s₀
      s₂ ← print_line_number line line_buf s₁
      s₃ ← print_state m ebp regs s₂
      s₄ ← print (literal "system halted. please reboot.") 25 23 0x4F s₃
      some (true, halts s₄))

unfoldable pub panic : Memory → ℕ → Bytes → Bytes → Bool → Screen → Option (Bool × End)
panic m ebp line_buf msg = kernel_panic m ebp line_buf msg (literal "<unknown>") 0 none

-- `KASSERT`, with the place of the assertion in the source: it has no end where the code behind it
-- goes on.
unfoldable pub kassert :
    Bool → Memory → ℕ → Bytes → Bytes → Bytes → ℕ → Bool → Screen → Option (Option (Bool × End))
kassert condition m ebp line_buf msg file line panic_in_progress s =
    if condition then some none else (do
      end ← kernel_panic m ebp line_buf msg file line none panic_in_progress s
      some (some end))
