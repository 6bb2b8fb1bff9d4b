-- ===== src/Trap.antt =====
-- Projects/OS161/kern/mips/syscall.c, trap.c and interrupt.c
pub mod Syscalls
pub mod Convention
pub mod Interrupts
pub mod Handler
pub mod Faults
pub mod Return
pub mod Entering
pub mod Children
mod Tests
