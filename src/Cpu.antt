-- ===== src/Cpu.antt =====
-- The part of the IA-32 processor that the interrupt stubs of kernel/isr.s and main.core.asm use:
-- the registers, and the stack as the bytes from ESP upwards. It follows the processor's manual.
pub mod Words
use micro_kernel.Base.{
  ℕ, ◌+◌, ◌-◌, ◌*◌, ◌/◌, ◌%◌, ◌^◌, Bool, true, false, List, [], ◌∷◌, ◌++◌, Option, none, some,
  ◌>>=◌, ◌==◌, ◌&&◌, leb, not, if◌then◌else◌, get_or, u8, u16, u32, Bytes,
}

-- The general registers but ESP, the data segments, and what an interrupt saves.
pub record Cpu : Type 0 where
  pub eax : ℕ
  pub ecx : ℕ
  pub edx : ℕ
  pub ebx : ℕ
  pub esp : ℕ
  pub ebp : ℕ
  pub esi : ℕ
  pub edi : ℕ
  pub ds : ℕ
  pub es : ℕ
  pub fs : ℕ
  pub gs : ℕ
  pub eip : ℕ
  pub cs : ℕ
  pub eflags : ℕ
  pub interrupts : Bool
  pub stack : Bytes

-- The bytes of a word and of a double word, the lowest first.
unfoldable pub bytes_16 : ℕ → Bytes
bytes_16 v = u8 v ∷ u8 (v / 2 ^ 8) ∷ []

unfoldable pub bytes_32 : ℕ → Bytes
bytes_32 v = u8 v ∷ u8 (v / 2 ^ 8) ∷ u8 (v / 2 ^ 16) ∷ u8 (v / 2 ^ 24) ∷ []

unfoldable pub take_16 : Bytes → Option (ℕ × Bytes)
take_16 (a ∷ b ∷ s) = some (a + 2 ^ 8 * b, s)
take_16 _ = none

unfoldable pub take_32 : Bytes → Option (ℕ × Bytes)
take_32 (a ∷ b ∷ c ∷ d ∷ s) = some (a + 2 ^ 8 * b + 2 ^ 16 * c + 2 ^ 24 * d, s)
take_32 _ = none

-- ESP moves by as many bytes as the stack.
unfoldable pub push_32 : ℕ → Cpu → Cpu
push_32 v c = record c { esp = u32 (c.esp + 2 ^ 32 - 4); stack = bytes_32 v ++ c.stack }

unfoldable pub push_16 : ℕ → Cpu → Cpu
push_16 v c = record c { esp = u32 (c.esp + 2 ^ 32 - 2); stack = bytes_16 v ++ c.stack }

unfoldable pub pop_32 : Cpu → Option (ℕ × Cpu)
pop_32 c = do (v, s) ← take_32 c.stack; some (v, record c { esp = u32 (c.esp + 4); stack = s })

unfoldable pub pop_16 : Cpu → Option (ℕ × Cpu)
pop_16 c = do (v, s) ← take_16 c.stack; some (v, record c { esp = u32 (c.esp + 2); stack = s })

-- The low half of a register is replaced.
abbrev pub low_16 : ℕ → ℕ → ℕ
low_16 r v = r / 2 ^ 16 * 2 ^ 16 + u16 v

-- `pushad`: ESP is pushed as it was before, and `popad` drops it.
unfoldable pub push_all : Cpu → Cpu
push_all c = push_32 c.edi (
    push_32 c.esi (
      push_32 c.ebp
        (push_32 c.esp (push_32 c.ebx (push_32 c.edx (push_32 c.ecx (push_32 c.eax c)))))))

unfoldable pub pop_all : Cpu → Option Cpu
pop_all c₀ = do
  (edi, c₁) ← pop_32 c₀
  (esi, c₂) ← pop_32 c₁
  (ebp, c₃) ← pop_32 c₂
  (_, c₄) ← pop_32 c₃
  (ebx, c₅) ← pop_32 c₄
  (edx, c₆) ← pop_32 c₅
  (ecx, c₇) ← pop_32 c₆
  (eax, c₈) ← pop_32 c₇
  some (record c₈ { edi = edi; esi = esi; ebp = ebp; ebx = ebx; edx = edx; ecx = ecx; eax = eax })

-- The instructions of the stubs. A `call` has the address that it returns to, and what the called
-- function does from its entry to its `ret`.
pub data Instruction : Type 0 where
  cli sti : Instruction
  push_imm : ℕ → Instruction
  push_eax push_ebx push_ax pop_eax pop_ebx pop_ax : Instruction
  pushad popad : Instruction
  mov_ax_ds mov_eax_esp : Instruction
  mov_ax_imm : ℕ → Instruction
  mov_ds_ax mov_es_ax mov_fs_ax mov_gs_ax : Instruction
  mov_ds_ebx mov_es_ebx mov_fs_ebx mov_gs_ebx : Instruction
  add_esp : ℕ → Instruction
  call : ℕ → (Cpu → Cpu) → Instruction

abbrev pub drop_bytes : ℕ → Bytes → Option Bytes
drop_bytes ℕ.zero s = some s
drop_bytes (ℕ.suc n) [] = none
drop_bytes (ℕ.suc n) (b ∷ s) = drop_bytes n s

-- `none` is a read above the stack.
unfoldable pub step : Instruction → Cpu → Option Cpu
step cli c = some (record c { interrupts = false })
step sti c = some (record c { interrupts = true })
step (push_imm v) c = some (push_32 v c)
step push_eax c = some (push_32 c.eax c)
step push_ebx c = some (push_32 c.ebx c)
step push_ax c = some (push_16 c.eax c)
step pop_eax c = pop_32 c >>= λ (v, c'). some (record c' { eax = v })
step pop_ebx c = pop_32 c >>= λ (v, c'). some (record c' { ebx = v })
step pop_ax c = pop_16 c >>= λ (v, c'). some (record c' { eax = low_16 c'.eax v })
step pushad c = some (push_all c)
step popad c = pop_all c
step mov_ax_ds c = some (record c { eax = low_16 c.eax c.ds })
step mov_eax_esp c = some (record c { eax = c.esp })
step (mov_ax_imm v) c = some (record c { eax = low_16 c.eax v })
step mov_ds_ax c = some (record c { ds = u16 c.eax })
step mov_es_ax c = some (record c { es = u16 c.eax })
step mov_fs_ax c = some (record c { fs = u16 c.eax })
step mov_gs_ax c = some (record c { gs = u16 c.eax })
step mov_ds_ebx c = some (record c { ds = u16 c.ebx })
step mov_es_ebx c = some (record c { es = u16 c.ebx })
step mov_fs_ebx c = some (record c { fs = u16 c.ebx })
step mov_gs_ebx c = some (record c { gs = u16 c.ebx })
step (add_esp n) c = do
  s ← drop_bytes n c.stack
  some (record c { esp = u32 (c.esp + n); stack = s })
step (call back f) c = pop_32 (f (push_32 back c)) >>= λ (v, c'). some (record c' { eip = v })

unfoldable pub run_code : List Instruction → Cpu → Option Cpu
run_code [] c = some c
run_code (i ∷ code) c = step i c >>= run_code code

-- Whether `iret` in ring 0 takes a selector for CS: it is not null and names a descriptor of the
-- table `gdt` that is present and of a code segment, whose privilege level is that of the selector,
-- or at most that for a conforming segment. There is no local table.
unfoldable pub names_code : Bytes → ℕ → Bool
names_code gdt selector =
    let access = get_or gdt (selector / 8 * 8 + 5) 0 in
    let dpl = access / 2 ^ 5 % 4 in
    let level = (if access / 2 ^ 2 % 2 == 1 then leb dpl (selector % 4) else dpl == selector % 4) in
    not (selector / 8 == 0)
    && selector / 4 % 2 == 0
    && access / 2 ^ 7 % 2 == 1
    && access / 2 ^ 3 % 4 == 3
    && level

-- What `iret` in ring 0 leads to: back to the popped EIP in ring 0, to a ring of less privilege, to
-- the virtual 8086 mode, or to a fault of the instruction.
pub data Return : Type 0 where
  returns : Cpu → Return
  leaves : ℕ → Return
  virtual_8086 : Return
  faults : Return

-- `iret` pops EIP, CS and EFLAGS, and checks what it has popped. An interrupt gate has cleared the
-- bit for nested tasks.
unfoldable pub pop_frame : Cpu → Option Cpu
pop_frame c₀ = do
  (eip, c₁) ← pop_32 c₀
  (cs, c₂) ← pop_32 c₁
  (eflags, c₃) ← pop_32 c₂
  some (record c₃ { eip = eip; cs = u16 cs; eflags = eflags; interrupts = eflags / 2 ^ 9 % 2 == 1 })

unfoldable pub checked : Bytes → Cpu → Return
checked gdt c =
    if c.eflags / 2 ^ 17 % 2 == 1
    then virtual_8086
    else if names_code gdt c.cs
    then if c.cs % 4 == 0 then returns c else leaves (c.cs % 4)
    else faults

unfoldable pub iret : Bytes → Cpu → Option Return
iret gdt c = do c' ← pop_frame c; some (checked gdt c')

-- A stub: its code, and `iret` at its end.
unfoldable pub run_stub : Bytes → List Instruction → Cpu → Option Return
run_stub gdt code c = run_code code c >>= iret gdt

-- An interrupt gate of the same privilege: EFLAGS, CS and EIP are pushed, interrupts are disabled,
-- and the processor goes to the stub.
unfoldable pub interrupt : ℕ → Cpu → Cpu
interrupt stub c = record (push_32 c.eip (push_32 c.cs (push_32 c.eflags c))) {
  eip = stub;
  interrupts = false;
}

-- The same for an exception, which may have an error code.
unfoldable pub raise : Option ℕ → ℕ → Cpu → Cpu
raise none stub c = interrupt stub c
raise (some code) stub c = push_32 code (interrupt stub c)

-- A C function, by the calling convention: it leaves any values in EAX, ECX and EDX, and keeps
-- the other registers and the stack.
abbrev pub cdecl : (Cpu → ℕ × ℕ × ℕ) → Cpu → Cpu
cdecl scratch c = record c { eax = (scratch c).0; ecx = (scratch c).1; edx = (scratch c).2 }
