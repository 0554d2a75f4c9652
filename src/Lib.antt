-- ===== src/Lib.antt =====
-- The kernel of First-OS-Build: a freestanding 32-bit x86 kernel that boots into a text editor.
--
-- The program. The assembly of boot/ enters kernel_main (kernel/kernel.cpp), which prints a
-- greeting, calls kernel_init and then loops over editor_process_keypress. The keyboard
-- interrupt puts characters into the ring of kernel/keyboard.cpp, from which the editor
-- (kernel/editor.cpp) takes them. The editor keeps its text in the heap of kernel/memory.cpp,
-- shows it through the terminal of kernel/kernel.cpp, and compiles and runs it with
-- kernel/compiler.cpp. The table of files is that of kernel/filesystem.cpp. kernel/string.cpp
-- and kernel/stdio.cpp are the C library of all of them.
--
-- The files. Each file is named for its source and has a function for each function of the
-- source, with its name, and a record for each of its structs; a loop has a function of its own.
--
-- Prelude: tests, lists and numbers; Ports: the device ports.
--
-- Keyboard (kernel/keyboard.cpp): the tables, the handler, the ring; Keyboard/Queue is the
-- abstract queue, Keyboard/Init the dialogue with the controller. Keyboard/Reader is a call
-- access by access, with interrupts between (Keyboard/Interleave), and Keyboard/Clear one that
-- interrupts disturb.
--
-- Terminal (kernel/kernel.cpp): the page of 80 by 25 cells and the cursor; Terminal/View is the
-- abstract page.
--
-- Memory (kernel/memory.cpp): headers at addresses, and bytes; Memory/Blocks is the abstract
-- list of blocks.
--
-- CString (kernel/string.cpp), Stdio (kernel/stdio.cpp), Interrupts (kernel/interrupts.cpp),
-- Filesystem (kernel/filesystem.cpp; Filesystem/Directory is the abstract directory,
-- Filesystem/Listing what is shown of it), Compiler (kernel/compiler.cpp): Compiler/Assembly is
-- the abstract translation of the lines of a text.
--
-- Editor (kernel/editor.cpp): Editor/Text is the abstract text with its column, Editor/Page what
-- the screen shows, and Editor/Session the whole as a user meets it: a queue of typed
-- characters, the text, the page. Editor/Schedule shows that the session does not depend on when
-- the keys come. Editor/Compile is the run of a text as a program.
--
-- Main (kernel_init, kernel_main and kernel_panic of kernel/kernel.cpp): Main/Start has the
-- session that a fresh desk works as, and the start of kernel_main before a keyboard controller
-- that does not answer, Main/Banner what kernel_main shows before its loop. Main/Loop follows
-- the session round by round. Main/Steps is the loop step by step, Main/Agrees and Main/Anytime
-- relate it to Editor/Moments, a session with keys and rounds in any order, and Main/Typed reads
-- all keys.
--
-- Release (release/kernel/): the editor, the start and the file functions of the older copy of
-- the kernel, which differ; Release/Same compares the two editors.
--
-- The loop of kernel_main runs over a schedule: for each round the scancodes of the interrupts
-- that come before it. There an interrupt comes between rounds. In Main/Steps it comes between
-- any two steps, each of them one access of the ring by keyboard_getchar or what a round does
-- behind it, which shares nothing with the interrupt; the accesses of Keyboard/Reader stand in
-- the order of the source, which a compiler may change since the variables are not volatile. The
-- handler runs with interrupts off. A desk works as a session (Works, in Editor/Process) for a
-- number of rounds, with the room that these may need: a key may add a block of 14 bytes more
-- than the text to the heap, whose addresses end below 2 ^ 32, and the loops of the allocator
-- need a round for each block. A fresh desk, as memory_init, editor_init and terminal_init leave
-- it, has that room for 65,000 rounds. That kernel_main gets as far is not claimed.
--
-- The conventions. Numbers are natural numbers; size_t, int and addresses have 32 bits, and
-- wrap-around is written out where a value can reach it. A `char*` into an object is the list of
-- the bytes from the pointer to the end of the object, a text in the heap is an address. A
-- result of `none` is a step that C leaves undefined: an access past an object, through a null
-- pointer or to an address at which no block header stands; an argument of snprintf or sprintf
-- that is not of the type its directive reads; or a loop that has not ended within its fuel.
-- Loops on fuel are those of the allocator (one round for each block and one more are enough),
-- those that wait for the keyboard controller (a controller that does not answer exhausts any
-- fuel), strlen at an address, itoa and int_to_string (a round for each digit and one more) and
-- reverse. The other loops are structural.
--
-- Parameters. The keyboard controller is an argument of the record Ports; the cells at
-- VGA_MEMORY, the addresses of the assembly stubs, what the processor does when it runs a
-- compiled binary, and the bytes an uninitialised buffer holds are arguments of the functions
-- that use them.
--
-- Not modelled: the boot sector and the assembly stubs (boot/, kernel/*.asm), the instructions
-- of kernel/io.h, kernel/multiboot.h (which nothing reads), the parts of the older copy under
-- release/kernel/ that are the same text as those under kernel/, scripts and tests. The halting
-- loops are the end of a model's run; the delay loop of kernel_main is left out, and so are the
-- two variables of compiler.cpp that nothing reads. The bytes of a block header are not part of
-- the byte memory. The heap is taken to be apart from all other objects, while the source puts
-- it at 0x100000, where linker.ld places the kernel image. Interrupts between the end of
-- kernel_init and the loop are left out; they change the ring and the clock alone. vsnprintf
-- returns the length without the conversion to int, and memmove does not wrap at 2 ^ 32, which
-- differ for texts of 2 ^ 31 bytes and for areas that are no objects.
pub mod CString
pub mod Compiler
pub mod Editor
pub mod Filesystem
pub mod Interrupts
pub mod Keyboard
pub mod Main
pub mod Memory
pub mod Ports
pub mod Prelude
pub mod Release
pub mod Stdio
pub mod Terminal
