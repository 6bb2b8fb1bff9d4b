-- ===== src/Thread.antt =====
-- The thread system: Projects/OS161/kern/thread/thread.c and scheduler.c, kern/include/thread.h and
-- the context switch of kern/mips/pcb.c.
pub mod State
pub mod Scheduler
pub mod Wakeup
pub mod Waking
pub mod Sleepers
pub mod Switch
pub mod Choice
pub mod Reaping
pub mod Invariant
pub mod Resuming
pub mod Switching
pub mod Parking
pub mod Staying
pub mod Operations
pub mod Exit
pub mod ForkBranches
pub mod Forking
pub mod Creation
pub mod Population
pub mod RoundRobin
pub mod Turns
pub mod Printing
pub mod Printed
pub mod Example
pub mod Bootstrap
mod Tests
pub mod Fork
