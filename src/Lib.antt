-- ===== src/Lib.antt =====
-- locOS: a simulator of a small computer and its operating system kernel, in C (sys/). A clock thread
-- executes one instruction per tick on every hardware thread and decrements the time to live of its
-- process; a timer and the clock activate the scheduler thread; a generator or a loader puts processes
-- into the ready queue. All of them share the machine, the physical memory and the process control
-- blocks, under the mutex of the clock.
--
-- Which file models which part:
--   Base, Base/*: tests, lists, integers and loops that the parts share.
--   Memory: sys/memory.h and the frames, the kernel space and the words of sys/memory.c. Frames holds
--     the invariant of the bitmap, Frames/Search and Frames/Boot its theorems, Words the accesses.
--   Memory/PageTable: page tables and the MMU of sys/memory.c. A table stands in the words of the
--     physical memory, so a store can reach it as it can in the program. Entry, Mmu, Isolation, Create
--     and Space hold the theorems; Space sees the pages of a process as one array of words.
--   Process: the PCB and its functions (sys/process.h, sys/process.c). PCBs are shared by pointer, so
--     they stand in a heap; malloc is a parameter.
--   Queue: ProcessQueue of sys/process.c. Queue/Ring has its invariant, Queue/Fifo the abstract queue.
--   Machine: the slots of sys/machine.c; Create is create_machine; Slots, Assign, Shift and Remove have
--     the theorems.
--   Machine/Cycle: the instruction cycle of sys/machine.c; Cycle/Isa has the abstract machine,
--     Cycle/Abstract the refinement.
--   Scheduler: the state and the queues of the scheduler of sys/process.c; Select is
--     select_next_process, Preempt the preemption, Activation one round of scheduler_function.
--   Clock: one tick of clock_function of sys/clock.c.
--   Timer: a timer of sys/timer.c, one round of timer_function at a tick; Rounds has a run of ticks.
--   Loader: create_process_from_program of sys/loader.c. Loader/Page has the words of one frame, Pages
--     and Fill the loop over the pages, Keep what the other address spaces see, Create the process and
--     Run its execution.
--   Loader/Scan: %x of sscanf and %X of sprintf; Loader/Elf: load_program_from_elf of sys/loader.c on the
--     lines of a file, with Passes and Listing for its two passes.
--   Runtime: the clock and the scheduler taking turns, sys/clock.c and sys/process.c; Conserve has what
--     every interleaving keeps, Life and Completes the end of all processes.
--   Kernel/Start: main of sys/kernel.c from the creation of the parts to the running system; Completes
--     follows it to the end of the programs, with Loaded and Residents on what was loaded.
--   Kernel/Release: what main of sys/kernel.c holds while it starts, and its clean-up where a part fails.
--   Kernel/Shutdown: the loops of cleanup_system of sys/kernel.c and destroy_scheduler of sys/process.c.
--   Kernel/Arguments: the flags of main in sys/kernel.c, with atoi as a parameter.
--   Kernel: the loop of main that loads the programs; Kernel/Residents has the address
--     spaces of the processes in the ready queue, on what Loader/Outcome says of one program; Directory
--     follows them through the loop, and Room has the case that there is room for all.
--   Generator: the process generator of sys/process.c, one round of process_generator_function.
--   Prometheus: what programs/prometheus/prometheus.c writes into a file; Words and Code have the
--     instructions, Run their loading and execution; Files has the options and the loop over the files,
--     Names and Decimal their names, Loaded the kernel that loads them.
--
-- Conventions. Addresses, words and counters are native numbers, with the wrap-around of 32-bit
-- arithmetic written out; int is an integer without bounds. NULL is 0 for a PCB and none for a page
-- table. Functions that return 1 or 0 as a truth value return a Boolean. Loops over an index are
-- recursion on the number of rounds left. The two while loops of the scheduler run on fuel: the transfer
-- on the number of processes in the ready queue, since every round takes one out, the dispatch on the
-- number of processes that wait plus one.
--
-- Not modelled: messages, the threads with their waiting, start and stop, and the functions that
-- only free one structure; the seeding of rand; --help, the signal handler and the order of the calls of
-- cleanup_system in sys/kernel.c, with the mutex that it waits for; the
-- help and the banner of programs/prometheus.
pub mod Base
pub mod Memory
pub mod Queue
pub mod Process
pub mod Machine
pub mod Scheduler
pub mod Clock
pub mod Loader
pub mod Prometheus
pub mod Kernel
pub mod Generator
pub mod Timer
pub mod Runtime
