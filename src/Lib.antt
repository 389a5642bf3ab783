-- ===== src/Lib.antt =====
-- The kernel of student-distrib/: its console, file system, processes, terminals and devices.
--
-- Parts, and the files that model them:
--   student-distrib/lib.c, strings and memory    CString, with CString/Strings, Copy, Words, Digits
--   student-distrib/lib.c, the screen            Console, with Console/Cells, Cursor, Background, Frame
--   student-distrib/lib.c, printf                Printf, with Printf/Plain, Hexadecimal, Frame,
--                                                Fitting, Bounds
--   student-distrib/i8259.c                      Pic, with Pic/Masks
--   student-distrib/file_system.c                FileSystem, with FileSystem/ReadData, Entry, Lookup,
--                                                Directory
--   student-distrib/rtc.c                        Rtc, with Rtc/Frequency, Ticks
--   student-distrib/paging.c                     Paging, with Paging/Translation, Mappings, Init
--   student-distrib/terminal.c                   Terminal, with Terminal/Line, Switch
--   student-distrib/keyboard.c                   Keyboard, with Keyboard/Scancodes, Keys
--   student-distrib/system_call.c, descriptors   Files, with Files/Descriptors
--   student-distrib/system_call.c, execute       Process, with Process/Mask, Command, Start, Faults
--   student-distrib/system_call.c, halt and more Halt, with Halt/Parent, Resume, RoundTrip
--   student-distrib/scheduling.c                 Scheduler, with Scheduler/Round
--   student-distrib/idt.c, mouse.c               Interrupts, with Interrupts/Gates, Exceptions
--   student-distrib/kernel.c, multiboot.h        Boot, with Boot/Screens, Initial, First, Segments
--   all of them together                         Kernel, with Kernel/Sound, Keys, Calls, Turns,
--                                                Descriptors, Invariant
--   syscalls/, programs                          Programs, with Programs/Support, Cat, Ls, System,
--                                                Listing, Grep, Counter
--   syscalls/ece391shell.c                       Programs/Shell, with Programs/Shell/Lines, Session, Typed
--   syscalls/ece391syserr.c                      Programs/Syserr, with Programs/Syserr/Passes, Runs
--   syscalls/ece391emulate.c                     Emulation, with Emulation/Copies, Arguments
--   the programs on the kernel                   Programs/OnKernel, with Programs/OnKernel/Strings, Names,
--                                                Served, Refuses, Opens, Passes
-- Machine holds the state that they share. Prelude has the helpers, Fixtures a machine for the tests,
-- and each component's Tests apply its theorems to concrete inputs.
--
-- How they interact: a user program calls read, write, open and close (Files), which go by the file's
-- type to the file system, the clock or the terminal. The terminal's calls print through Printf and
-- Console, and wait for the keyboard. execute (Process) and halt (Halt) change the processes and the
-- user memory (Paging). The timer (Scheduler) goes round the terminals and starts their shells.
-- An exception (Interrupts) prints a message and halts the program. entry (Boot) initialises every
-- part and waits. Kernel has each interrupt and each call as a step from one machine to the next.
-- The programs (Programs) see their own memory and an interface of system calls, which Programs/System
-- and Programs/Listing fill with a system of one file and one of one directory, Programs/Shell/Typed with
-- one on which lines are typed, and Programs/OnKernel with the kernel's own calls.
--
-- State and operations: a function keeps its name and takes the machine after its arguments. Memory is
-- a function from an address to a byte, an array a function of its index, and the process of PCB `n` is
-- `pcb n`. A uint32_t is a number whose wrap-around is written out where a sum can reach it. Bytes that
-- are sent to ports are recorded; bytes that are read from ports are arguments.
-- A call that waits takes the interrupts that come meanwhile; it gives `none` if they were not enough.
-- execute, halt and the timer end in an Outcome: a return, the entry of a program, or the registers
-- with which an earlier call goes on. What C leaves undefined gives `none`, `fault`, or a write behind
-- an array's end, where the source has one.
--
-- Bounds: loops over strings have 2^32 rounds of fuel, the size of the address space; itoa's loop has
-- 33, more than a uint32_t has digits; the loop of rtc_set_freq has 15, enough for every frequency from
-- 1 on; the loops of cat, ls, grep and the shell take a round for each read; cat has enough with one more than
-- the file has bytes, and ls with one more than there are names. The loops with a counter have its number of rounds.
--
-- Not modelled: the assembly (boot.S, x86_desc.S and the stubs of idt_handler.S, which save the
-- registers and call the handlers; the table of the system calls in it is syc_handler of
-- Programs/OnKernel) and the layout of the task state segment; student-distrib/tests.c, whose calls are all
-- commented out; of the user programs pingpong and fish, which draw on the screen without end, and
-- sigtest, which waits for signals that the kernel does not have. The library of the system on which
-- Emulation runs is a parameter of it; the copy of the file in fish/ is the same. Interrupt flags and the TLB have no state here. In a step of Kernel a
-- call that waits sees ticks of the clock and keys, and no other interrupt. On the kernel a program's
-- pointers are physical addresses, and a call that does not come back to it ends its run.
pub mod Prelude
pub mod Fixtures
pub mod Machine
pub mod Pic
pub mod CString
pub mod FileSystem
pub mod Console
pub mod Printf
pub mod Rtc
pub mod Paging
pub mod Terminal
pub mod Files
pub mod Process
pub mod Halt
pub mod Interrupts
pub mod Scheduler
pub mod Keyboard
pub mod Kernel
pub mod Boot
pub mod Programs
pub mod Emulation
