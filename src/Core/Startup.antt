-- ===== src/Core/Startup.antt =====
-- coresystem.c, part 7: the start of the core system. `kernel_log` has no body in the repository:
-- a call of it is recorded.
use micro_kernel.Base.{
  ℕ, zero, suc, ◌+◌, ◌≡◌, refl, ap, ◌∙◌, arith, List, [], ◌∷◌, ◌++◌, Bytes, literal,
}

-- `log_level_t`.
pub data LogLevel : Type 0 where
  debug info warn error fatal : LogLevel

pub record KernelLog : Type 0 where
  pub level : LogLevel
  pub component : Bytes
  pub message : Bytes

abbrev log : Bytes → Bytes → KernelLog
log component message = record { level = info; component = component; message = message }

-- The calls, in their order. Every other call of the function is commented out.
abbrev pub startup_logs : List KernelLog
startup_logs =
    log (literal "CORE") (literal "CoreSystem Initialization Sequence Started.")
    ∷ log (literal "PMM") (literal "Physical Memory Manager initialized.")
    ∷ log (literal "VFS") (literal "Virtual File System initialized with RamFS root.")
    ∷ log (literal "SCHED") (literal "Process Manager and Scheduler initialized.")
    ∷ log (literal "SYSCALL") (literal "System Call Interface configured.")
    ∷ log (literal "CORE") (literal "CoreSH process has been created as PID 1.")
    ∷ log (literal "CORE") (literal "Scheduler enabled. Handing over control to multitask kernel.")
    ∷ []

-- What is left to do: calls, and then the loop that never ends.
pub data Rest : Type 0 where
  logging : List KernelLog → Rest
  looping : Rest

-- One step, with the calls made so far.
unfoldable pub startup_step : Rest → List KernelLog → Rest × List KernelLog
startup_step (logging []) made = (looping, made)
startup_step (logging (l ∷ ls)) made = (logging ls, made ++ l ∷ [])
startup_step looping made = (looping, made)

unfoldable pub core_system_initialize : ℕ → Rest × List KernelLog
core_system_initialize zero = (logging startup_logs, [])
core_system_initialize (suc n) =
    let (rest, made) = core_system_initialize n in startup_step rest made

-- After eight steps the function is in its loop for good, with the seven calls made.
pub startup_loops : (n : ℕ) → core_system_initialize (8 + n) ≡ (looping, startup_logs)
unfolding core_system_initialize startup_step
startup_loops zero = refl
startup_loops (suc n) =
    let next : 8 + suc n ≡ suc (8 + n) = omega arith in
    ap core_system_initialize next ∙ ap (λ s. startup_step s.0 s.1) (startup_loops n)
