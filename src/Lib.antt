-- ===== src/Lib.antt =====
-- The OS/161 kernel of Projects/OS161/kern and the programs of Projects/OS161/bin, translated from
-- their C sources.
--
-- The program. One MIPS processor runs threads. kern/thread/thread.c keeps the running thread, the
-- sleepers, the zombies and a counter, and kern/thread/scheduler.c the run queue; both are protected by
-- the interrupt level of kern/mips/spl.c, and kern/mips/pcb.c changes threads. The semaphores and locks
-- of kern/thread/synch.c sleep and wake threads through thread.c. kern/mips/ram.c hands out physical
-- pages, and kern/mips/dumbvm.c builds address spaces from them and fills the TLB.
--
-- The files.
--   Base       shared helpers: lists, counts and integers over the native numbers, and what a run of
--              kernel code ends in (Base/Results): a value, a panic, a processor that waits for an
--              interrupt, or the end of the fuel of a loop.
--   Spl        kern/mips/spl.c: splx, splhigh, spl0 and cpu_idle on the status register and curspl.
--   Platform   the arrays and queues of kern/include/array.h and queue.h, of which the repository has
--              the interface only: Platform is a record of their operations, Laws what the headers say
--              of them, and Platform/Bounded an instance, a list with a limit.
--   Thread     State: struct thread, struct pcb and the globals of the thread system, with the heap of
--              thread structures as a map from addresses. Scheduler: scheduler.c with thread_wakeup
--              and thread_hassleepers. Switch: mi_switch, md_switch, thread_yield, thread_sleep,
--              thread_exit, exorcise. Fork: thread_create, thread_fork, thread_bootstrap and the panic
--              functions. Invariant: what holds of the thread system while a thread runs. The other
--              modules prove what Wakeup, Choice (the scheduler), Staying (who sleeps on), Reaping
--              (exorcise), Operations, Exit, Creation, Bootstrap, RoundRobin and Turns are named for;
--              Printing is print_run_queue, and Printed what it prints; Example is a system of three
--              threads.
--   Synch      kern/thread/synch.c: State, Semaphores (P is proberen, V is verhogen), Locks with the
--              empty condition variables, Resumption (what a sleeper does when it runs again); Falling,
--              Counting, Ownership, Releasing, Lifetimes and Pairing prove what they do. Steps: the calls of all
--              threads in any order, as a relation on the whole state; Waiting: what holds between the
--              steps; Sleeping, Acquiring, Waking and Creating show that each call keeps it, and Progress
--              what follows for every run. Mutex is a lock as its users see it.
--              Runs counts the P and V of a run; Balance, Untouched and Conservation set them against the
--              count of the semaphore.
--   Memory     Machine: the state, and the constants of machine headers as parameters. Ram: ram.c and
--              getppages. AddrSpaces and Fault: dumbvm.c. Stealing, Loading, Regions and Faults prove.
--   Stoplight  kern/asst1/stoplight.c. Vehicle: the functions of a vehicle's thread as the list of its
--              actions, one for each access to what the threads share. World: the locks and counters,
--              what an action does, and a relation in which any vehicle may be next; its locks are free
--              or have an owner, as in Synch/Mutex. Shape:
--              the order of the calls in each thread. Exclusion, Jam and Deadlock prove. Creating is
--              createvehicles on the state of Synch, with the loop of Cats/Drivers, and Vehicles proves
--              what it sets up, which World starts from.
--   Cats       kern/asst1/catsem.c and catlock.c. Drivers: the loops that start cats and mice with
--              thread_fork; Forks and Starting prove what such a loop and a driver leave.
--   Menu       kern/main/menu.c. Words: texts and C's strtok_r. Interval: getinterval. Environment: the
--              record of what the menu calls (file system, console, clock, threads, the tests).
--              Commands, Screens and Dispatch: the commands, the menus, and the table with the loops of
--              cmd_dispatch, menu_execute and menu. Splitting, Running, Lines, Columns, Devices prove.
--   Clock      kern/thread/hardclock.c. Hardclock: hardclock, and clocksleep up to each of its sleeps;
--              Ticks: what a tick does to the thread system.
--   Trap       Syscalls: mips_syscall of kern/mips/syscall.c, with the system calls as a parameter, since
--              their code is in other files; Convention: what the user gets back. Interrupts:
--              mips_interrupt of kern/mips/interrupt.c. Handler: mips_trap, kill_curthread and
--              mips_usermode of kern/mips/trap.c; Faults and Return: how a trap ends. Entering: md_usermode of trap.c
--              and md_forkentry of syscall.c; Children: what the child of a fork starts with.
--   Boot       kern/main/main.c. State: the thread system, the bounds of the memory, the pointers that
--              may be NULL, and what other files are asked to do. Startup: boot, with scheduler_bootstrap
--              and machdep_dev_bootstrap; Shutdown: shutdown and sys_reboot, with scheduler_shutdown,
--              thread_shutdown, md_halt, md_reboot and md_poweroff; Bus: the registers of
--              kern/mips/lamebus_mips.c. Dropping, Ending and Running prove how it comes up and down.
--   Programs   bin/cat/cat.c and bin/cp/cp.c. Process: the system calls as a record, and the ends of a
--              run; Copying: the loop that both programs have; Cat, Cp: the rest of them; Transfers and
--              Copies: what they copy. Names: the programs that make one system call for each name, ln,
--              mv, rm, mkdir, rmdir, pwd and sync, with true, false and sh; Removing: what rm removes.
--   Listing    bin/ls/ls.c. Setting: the calls and the state of ls; Files: its functions, where what
--              follows a call of stat or open is given as a function; Options: main; Names and
--              Directories: what it prints of a directory.
--
-- A context switch. Code behind mips_switch runs on another stack. Each thread structure therefore
-- holds the frame in which its thread was left (Frame in Thread/State), and a run of an operation ends
-- where the thread that is switched to returns from the operation that had given up the processor. In
-- the same way the loops of P and lock_acquire end a run when they sleep, and Synch/Resumption goes on
-- with the test of the loop.
--
-- Loops and interrupts. The loops of the menu have the length of the text plus one as fuel, since
-- strtok_r shortens the text; menu runs a given number of rounds. The reading loop of cat and cp has a
-- fuel, enough if it is more than the bytes to be read; its writing loop has the bytes of a read. The
-- loops of ls have a fuel, enough for a listing if it is more than the entries, and so has the loop of
-- print_run_queue, enough if it is more than the threads that are ready. The loop of thread_wakeup has
-- the number of sleepers plus one as fuel, since each round passes a sleeper or removes it; the
-- theorem on it has no case for the end of the fuel. The other loops recur on the number of rounds
-- that are left. While the scheduler idles, interrupts are the only events; they are given as the list
-- of the addresses that their handlers wake, and the result is idle where the list ends with nothing
-- ready. Memory that the allocator returns is given as an argument, as are the results of
-- array_create. Between the calls of thread_fork in the drivers of kern/asst1 no interrupt comes.
-- Counts of threads are unbounded numbers; the count of a semaphore, addresses and sizes have 32 bits
-- and wrap.
--
-- Not modelled: the assembler of kern/mips, the driver of the bus and the console, and the random
-- yields of OPT_SYNCHPROBS; kmain, which calls boot and then the menu; the functions of the cats and
-- mice, which are empty in the code. Outside of this library are the Java, web and Lisp projects beside
-- Projects/OS161.
pub mod Base
pub mod Boot
pub mod Cats
pub mod Clock
pub mod Listing
pub mod Memory
pub mod Menu
pub mod Platform
pub mod Programs
pub mod Spl
pub mod Stoplight
pub mod Synch
pub mod Thread
pub mod Trap
