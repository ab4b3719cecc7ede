-- ===== src/Interrupts/Stub.antt =====
-- kernel/isr.s: the stubs between the processor and `isr_handler`.
pub mod Frame
pub mod Lost
pub mod Samples
use micro_kernel.Base.{ℕ, List, [], ◌∷◌, ◌++◌}
use micro_kernel.Cpu.{
  Cpu, Instruction, cli, sti, push_imm, push_ax, pop_ax, pushad, popad, mov_ax_ds, mov_ax_imm,
  mov_ds_ax, mov_es_ax, mov_fs_ax, mov_gs_ax, add_esp, call,
}

-- `isr_handler_common` up to the call.
abbrev pub save : List Instruction
save =
    pushad
    ∷ mov_ax_ds
    ∷ push_ax
    ∷ mov_ax_imm 0x10
    ∷ mov_ds_ax
    ∷ mov_es_ax
    ∷ mov_fs_ax
    ∷ mov_gs_ax
    ∷ []

-- What follows the call, up to `iret`.
abbrev pub restore : List Instruction
restore = pop_ax ∷ mov_ds_ax ∷ mov_es_ax ∷ mov_fs_ax ∷ mov_gs_ax ∷ popad ∷ add_esp 8 ∷ sti ∷ []

-- `back` is the address behind the call, and `handler` what `isr_handler` does to the processor.
abbrev pub isr_handler_common : ℕ → (Cpu → Cpu) → List Instruction
isr_handler_common back handler = save ++ call back handler ∷ restore

-- `ISR_NOERR_STUB`, with the code that it jumps to.
abbrev pub isr_noerr_stub : ℕ → List Instruction → List Instruction
isr_noerr_stub n common = cli ∷ push_imm n ∷ common
