-- ===== src/Imperium/Stubs.antt =====
-- main.core.asm, part 5: the stubs between the processor and the handlers in C.
pub mod Frame
pub mod Restore
pub mod Served
mod Tests
use micro_kernel.Base.{ℕ, ◌+◌, ◌==◌, leb, ◌&&◌, ◌||◌, if◌then◌else◌, Bool, List, [], ◌∷◌, ◌++◌}
use micro_kernel.Cpu.{
  Cpu, Instruction, cli, push_imm, push_eax, pop_eax, pop_ebx, pushad, popad, mov_ax_ds,
  mov_eax_esp, mov_ax_imm, mov_ds_ax, mov_es_ax, mov_fs_ax, mov_gs_ax, mov_ds_ebx, mov_es_ebx,
  mov_fs_ebx, mov_gs_ebx, add_esp, call,
}

-- The common stubs up to the call: the two differ in the function that they call alone.
abbrev pub save : List Instruction
save =
    pushad
    ∷ mov_ax_ds
    ∷ push_eax
    ∷ mov_ax_imm 0x10
    ∷ mov_ds_ax
    ∷ mov_es_ax
    ∷ mov_fs_ax
    ∷ mov_gs_ax
    ∷ mov_eax_esp
    ∷ push_eax
    ∷ []

-- What follows the call, up to `iret`.
abbrev pub restore : List Instruction
restore =
    pop_eax ∷ pop_ebx ∷ mov_ds_ebx ∷ mov_es_ebx ∷ mov_fs_ebx ∷ mov_gs_ebx ∷ popad ∷ add_esp 8 ∷ []

-- `back` is the address behind the call, and the function what `fault_handler` does.
abbrev pub isr_common_stub : ℕ → (Cpu → Cpu) → List Instruction
isr_common_stub back fault_handler = save ++ call back fault_handler ∷ restore

abbrev pub irq_common_stub : ℕ → (Cpu → Cpu) → List Instruction
irq_common_stub back irq_handler = save ++ call back irq_handler ∷ restore

-- The three macros, with the code that they jump to.
abbrev pub isr_noerr_stub : ℕ → List Instruction → List Instruction
isr_noerr_stub n common = cli ∷ push_imm 0 ∷ push_imm n ∷ common

abbrev pub isr_err_stub : ℕ → List Instruction → List Instruction
isr_err_stub n common = cli ∷ push_imm n ∷ common

abbrev pub irq_stub : ℕ → List Instruction → List Instruction
irq_stub n common = cli ∷ push_imm 0 ∷ push_imm n ∷ common

-- The vectors below 32 that have `ISR_ERR_STUB`.
abbrev pub has_error_code : ℕ → Bool
has_error_code n = n == 8 || leb 10 n && leb n 14 || n == 17 || n == 21 || leb 28 n && leb n 31

-- The stub of a vector.
abbrev pub isr : ℕ → List Instruction → List Instruction
isr n common = if has_error_code n then isr_err_stub n common else isr_noerr_stub n common

-- The stub of a line of the interrupt controllers.
abbrev pub irq : ℕ → List Instruction → List Instruction
irq line common = irq_stub (32 + line) common
