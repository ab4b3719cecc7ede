-- ===== src/Interrupts/Stub/Samples.antt =====
-- A processor that runs the kernel, for the tests of kernel/isr.s.
use micro_kernel.Base.{ℕ, ◌++◌, arith, true, replicate}
use micro_kernel.Cpu.{Cpu, bytes_32}
use micro_kernel.Cpu.Words.{IsCpu}

-- The kernel in its final loop, with EDI as its code may have left it.
abbrev pub idle : Cpu
idle = record {
  eax = 1;
  ecx = 2;
  edx = 3;
  ebx = 0x9500;
  esp = 0x7FF0;
  ebp = 0x7FF8;
  esi = 6;
  edi = 0x20007;
  ds = 0x10;
  es = 0x10;
  fs = 0x10;
  gs = 0x10;
  eip = 0x100080;
  cs = 0x08;
  eflags = 0x202;
  interrupts = true;
  stack = bytes_32 0x9500 ++ replicate 12 0;
}

pub idle-IsCpu : IsCpu idle
idle-IsCpu = omega arith

abbrev pub scratch : Cpu → ℕ × ℕ × ℕ
scratch c = (0, c.esp, 0x20)
