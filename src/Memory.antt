-- ===== src/Memory.antt =====
-- Projects/OS161/kern/mips/ram.c and dumbvm.c
pub mod Machine
pub mod Ram
pub mod AddrSpaces
pub mod Stealing
pub mod Loading
pub mod Regions
pub mod Faults
pub mod Example
mod Tests
pub mod Fault
