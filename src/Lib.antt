-- ===== src/Lib.antt =====
-- JOS: the parts of a small x86-64 kernel that compute, as definitions that run, and theorems about
-- them.
--
-- The parts and the files that model them:
--   * Strings: lib/string.c. Memory is a function from addresses to bytes; a function that writes
--     returns the new memory. Length: strlen, strnlen. Copy: strcpy, strcat, strncpy, strlcpy.
--     Compare: strcmp, strncmp, memcmp. Search: strchr, strfind, memfind, strstr. Fill and Move: memset
--     and memmove, as built with string instructions and as written in C behind `#else`, and memcpy.
--     Number: strtol.
--   * Print: lib/printfmt.c. Terminal is the state of a run (the colour globals and what putdat
--     points to); Args reads the va_list; Num is printnum, and Num/Roundtrip what strtol reads
--     back; Color the escape sequences; Text the conversion %s; Format is vprintfmt and printfmt
--     with the flags in Format/Flags; Format/Safe is an automaton over the characters of a format,
--     which Format/Total runs beside vprintfmt; Format/Render has formats as lists of items;
--     Buffer is vsnprintf.
--   * Console: kern/console.c, with inb and outb of inc/x86.h in Ports. State has the static variables;
--     Serial, Screen, Keymap, Keyboard and Ring are the devices and the input buffer; Putc and Input
--     put them together, Input/Serial with what the serial port sends; Cprintf is kern/printf.c, which
--     hands Putc to Print; Cprintf/Shown has what a call shows as the items of its format.
--   * Readline: lib/readline.c, on top of Console.
--   * Debug: kern/kdebug.c. Library is the interface of the DWARF library, a parameter; Function is
--     list_func_die, Lookup debuginfo_rip.
--   * Monitor: kern/monitor.c. Parse cuts the command line into words as the first half of runcmd does;
--     Backtrace is mon_backtrace, on Debug, and Backtrace/Shown the lines of a frame as items; the rest is the table of commands, runcmd and the loop of
--     the monitor, which Turns has as a step relation and Live follows through the lines that are typed.
--     The linker's symbols, and the registers and the stack at the start of a backtrace, are parameters.
--   * Disk: the IDE disk. Port has waitdisk and readsect of boot/main.c and kern/elf_rw.c; Boot is
--     boot/main.c; Segment is the readseg of kern/elf_rw.c and Sections the rest of that file, the table
--     of debug sections. The addresses of the literals with the sections' names are a parameter.
--   * Init: kern/init.c, on all of these. Calls is the order of the calls of test_backtrace; Boot
--     goes from the start to the monitor, Panic from a panic. The static variables of the console,
--     the keyboard and printing stand in a record of their own, not in the memory: where i386_init
--     clears the memory it clears that record too, and the memory is said to be zero only at the
--     other addresses.
--   * Rounding: the macros of inc/types.h. Mmu: the address and descriptor macros of
--     inc/mmu.h, those for the assembler in Assembler.
--
-- An int or a size is the number of its bit pattern, with the wrap-around written out. A loop that
-- the program does not bound takes fuel and answers none when that runs out: the loops over
-- strings need more fuel than the string has bytes, which the theorems ask for; printing needs a
-- unit for each byte of the format and of a printed string, and printnum has 64, the digits of a
-- 64-bit number in base 2; a command of the monitor needs some hundreds of units for its messages;
-- polling needs a unit for each reading. putc_depth is bounded by 2, which is all that cons_putc
-- and cga_putc call each other. What the hardware answers is a parameter, a function of the time
-- and the port; the sectors of the disk and what cga_init finds in video memory are parameters
-- too. Addresses do not wrap round the end of the address space.
--
-- A loop of kern/kdebug.c or of a backtrace has rounds, more than there are units and entries, or
-- frames; reading from the disk needs two units of fuel more than the sectors; the endless loops round
-- the monitor are counted in rounds.
--
-- Not modelled: the DWARF library in kern/libdwarf_*.c, kern/dwarf*.h and kern/macro.h, and
-- inc/queue.h and inc/stab.h, which are copies of other projects; assembly; the table of register names
-- in kern/kdebug.c, which no function reads; user/sendpage.c and ex1.c, which are not built into the
-- kernel.
pub mod Base
pub mod Strings
pub mod Print
pub mod Console
pub mod Readline
pub mod Rounding
pub mod Mmu
pub mod Disk
pub mod Debug
pub mod Monitor
pub mod Init
