-- ===== src/Lib.antt =====
-- A small 32-bit x86 kernel: it sets up the interrupt table, a physical page allocator and a
-- keyboard handler, shows what it does on the text display, and has a shell with a few
-- commands. Beside it stands coresystem.c, the beginning of a larger system, with a page bitmap
-- and a panic screen.
--
-- The parts and the files that model them:
-- Base.antt and its modules: conditionals, comparisons, lists and arrays (`store` and
-- `get_elem?` are `none` out of bounds), words with their wrap-around, integers, `&` and `|`
-- with a mask, and tests over a range of numbers.
-- Console.antt and its modules: kernel/vga.h, the ports of kernel/io.h and `panic` of
-- kernel/utils.h. A run records its calls, and returns, stops for good, is undefined or has no
-- end.
-- Strings.antt and its modules: kernel/string.c. A pointer is an index into the object or the
-- bytes from there to the object's end.
-- Pmm.antt and its modules: kernel/pmm.c and kernel/multiboot.h. The state is the three static
-- variables; memory is a function from addresses to bytes.
-- Shell.antt and its modules: kernel/shell.c. The state is the line's buffer with its position,
-- and the saved pointer of `strtok`; the commands use Strings and the counters of Pmm.
-- Keyboard.antt and its modules: kernel/keyboard.c, with the cursor as its state and the
-- scancode as an argument.
-- Interrupts.antt and its modules: kernel/idth.c and kernel/idt.h. `isr_handler` calls the
-- keyboard's handler; Interrupts.Stub has the stub of kernel/isr.s that calls `isr_handler`.
-- The two controllers are modelled after their data sheet, as the receivers of the port writes.
-- Kernel.antt and its modules: kernel/kernel.c. `kernel_main` calls the set-up of Interrupts
-- and of Pmm, and allocates and shows three pages; Kernel.Entry has boot/boot.s, which calls
-- it; Kernel.Image has kernel/linker.ld, whose symbol `end` Pmm starts from; Kernel.Loader sets
-- the structure of the Multiboot specification against the one in kernel/multiboot.h; and
-- Kernel.FirstKey puts the start, the controllers, the processor, the stub and the handler
-- together.
-- Core.antt and its modules: coresystem.c. Core.Bitmap has the page bitmap of its part 2
-- (Core.Bitmap.Sets as a quotient), Core.Panic the panic screen of its part 8, on a screen of
-- 2000 cells, with `panic` and the assertion `KASSERT` of its part 1, Core.Printf and Core.Atoi
-- its formatted output and its reading of numbers, Core.Commands, Core.Top and Core.Hexdump the
-- commands of its part 9, Core.Memory `memset` and `memcpy`, and Core.Startup the function
-- CoreSystem_Initialize of its part 7.
-- Cpu.antt and its modules: the part of the IA-32 processor that the interrupt stubs use, after
-- its manual: registers, a stack of bytes, and `iret` from ring 0 with its checks of what it
-- pops.
-- Imperium.antt and its modules: main.core.asm, the start-up code of Imperium OS, part by part.
-- Imperium.Stubs has its interrupt stubs on the processor of Cpu (Imperium.Stubs.Served with
-- the table and the controllers), Imperium.Vga its text display, with the stores that miss it,
-- Imperium.Paging, Imperium.Segments and Imperium.Idt its tables, Imperium.Timer,
-- Imperium.E820, Imperium.Features and Imperium.Scancode the timer, the BIOS memory map, the
-- processor's features and the wait for a key, and Imperium.Start the two versions of `_start`,
-- which call the others. Imperium.Ports has its header and the functions of one or two
-- instructions, and Imperium.Repeat the string instructions. The BIOS's replies and what
-- `cpuid` gives are parameters. Where a line is no instruction of the processor, such as `mov
-- al, eax`, the model takes the one that it must mean (there, AL).
--
-- Bounds and fuel: the walk over the memory map has 2^32 rounds, one for each value of its
-- cursor, so that running out means a loop without end. `utoa` and the line number of the panic
-- screen have 32 digits, which a 32-bit number needs in base 2 at most. The loops over the
-- arguments (31), the hexadecimal digits (8), the frames (5), the table (256) and the screen
-- (25 rows of 80) have the bounds of the source. The loop over a format has the format's
-- length, since each round reads a character. In main.core.asm the page table has 1024 entries,
-- the display 25 rows of 80, the interrupt table 48 gates and the BIOS map 128 entries, as in
-- the source; the wait for a key has fuel, and the number of waits plus one is enough. All
-- other loops are structural on the text that they read.
--
-- Not modelled: the bodies of the display functions, which the repository does not have;
-- `finit` and `hlt` in main.core.asm; the declarations without bodies in coresystem.c; the
-- overflow of the keyboard's row after 2^31 line breaks; where a linker puts sections that
-- kernel/linker.ld does not name. Interrupts during `kernel_main` and during the code of
-- main.core.asm are not interleaved with it. Addresses that the linker or the processor gives
-- (the kernel's end, the tables' and the stubs' addresses, ebp) and the contents of
-- uninitialized arrays are arguments.
pub mod Base
pub mod Console
pub mod Strings
pub mod Pmm
pub mod Shell
pub mod Keyboard
pub mod Interrupts
pub mod Kernel
pub mod Core
pub mod Cpu
pub mod Imperium
