-- ===== src/Lib.antt =====
-- Verification of wigOSX, a small i386 kernel in C.
--
-- The kernel boots from Multiboot, reads the memory map, sets up a bitmap of physical frames, and then serves
-- timer and keyboard interrupts, whose characters a foreground loop shows on the VGA screen.
--
-- The parts and the files that model them (paths from the root of the repository):
-- - Status, Multiboot, Memory: src/kernel/memory.c and its headers. Memory is a function from address to byte;
--   a structure is read from it field by field. memory_initialize is Memory.initialize, and so on: a C function
--   `memory_f` is Memory.f, `pmm_f` is Pmm.f, `terminal_f` is Terminal.f.
-- - Pmm: src/mm/pmm.c. Both bitmaps are functions from the index of a word to a 32-bit word; Pmm.State has
--   the state and the marks, Pmm.Bitmap the bit operations, Pmm.Align the 64-bit rounding. The linker symbols
--   are the record Layout.
-- - Input, Keyboard, Interrupts: src/kernel/input.c, src/drivers/keyboard.c, src/kernel/interrupts.c.
-- - Pic, Pit: src/arch/i386/hardware/pic.c, src/drivers/pit.c. A write to a port is a record in a list, in order;
--   what the kernel reads from a port is an argument.
-- - Terminal: src/drivers/vga.c, with Terminal.Screen the screen it stands for.
-- - Color, Visual: include/kernel/drivers/vga.h and src/kernel/test.c. Visual.Lines and Visual.Displays are about
--   texts that stand on the screen, Visual.Rows and Visual.Back about the ends of rows,
--   Visual.Sections about a heading and what stands below it.
-- - Format, Idt, Gdt: src/kernel/format.c, src/arch/i386/interrupts/idt.c, src/arch/i386/memory/gdt.c.
-- - Paging, Vmm, Heap: src/arch/i386/memory/paging.c, src/mm/vmm.c, src/mm/heap.c.
-- - Serial, Console, Log, Version: src/drivers/serial.c, src/kernel/console.c, src/kernel/log.c,
--   include/kernel/core/version.h. What the line status register gives at each of its reads is a parameter. What
--   is printed for a human to read is a list of calls of the log.
-- - System: the static variables of all files in one record, the registered handlers, and src/kernel/panic.c.
-- - Shell: src/kernel/shell.c. Shell.Line is the line that the buffer holds, Shell.Table the table of commands.
--   Shell.Thread is work as a sequence of steps, Shell.Steps the shell step by step, Shell.Atomic both in agreement.
-- - Kernel: src/kernel/work.c and src/kernel/kernel.c, with the interrupts that arrive between two rounds of the
--   loop. Kernel.Model says what the running kernel is for a person at the keyboard, Kernel.Boot is the start.
--   Kernel.Preempt lets interrupts arrive between any two steps of a round, Kernel.Good says which steps they cannot
--   disturb, Kernel.Midway and Kernel.Linear that they do what they do between rounds,
--   Kernel.Forward that nothing is left behind, Kernel.Careful and Kernel.Lasting what no command and no interrupt changes,
--   Kernel.Life and Kernel.Frames the whole from the start on.
-- - Base: the shared names, Boolean tests, lists, bits of numbers and bounded loops.
--
-- Static variables of a file are one record; an operation takes the record and gives the one after. uint32_t and
-- uint64_t are natural numbers with the wrap-around written out. A `bool` with an out-parameter is an Option, and
-- a `NULL` out-parameter is a Boolean argument.
--
-- Bounds and fuel: a loop `for` from lo to hi makes hi - lo rounds, by recursion on that number. The walk through the
-- memory map runs on fuel, the length of the map: a round moves on by 24 bytes or more. The
-- comparison of a command with a literal runs on 64 rounds, the size of the buffer; no literal is that long.
--
-- Not modelled: boot assembly and the linker script, single CPU instructions, and the concurrency of an interrupt
-- within a step of the foreground. A step is a call of the console or of the log, a write to the line buffer or to
-- its length, a run of the self-test of the frames, or the part of a round with interrupts disabled; interrupts
-- arrive between any two steps. The timer's handler writes to the serial port alone, so that what it does within a
-- call of the log differs in the order of bytes there. The instructions that enable interrupts and wait set Booleans.
pub mod Base
pub mod Status
pub mod Multiboot
pub mod Memory
pub mod Pmm
pub mod Input
pub mod Keyboard
pub mod Interrupts
pub mod Pic
pub mod Pit
pub mod Terminal
pub mod Color
pub mod Visual
pub mod Format
pub mod Idt
pub mod Gdt
pub mod Paging
pub mod Vmm
pub mod Heap
pub mod Serial
pub mod Version
pub mod Console
pub mod Log
pub mod System
pub mod Shell
pub mod Kernel
