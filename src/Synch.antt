-- ===== src/Synch.antt =====
-- Projects/OS161/kern/thread/synch.c
pub mod State
pub mod Semaphores
pub mod Locks
pub mod Resumption
pub mod Falling
pub mod Counting
pub mod Ownership
pub mod Releasing
pub mod Lifetimes
pub mod Pairing
pub mod Mutex
pub mod Steps
pub mod Waiting
pub mod Sleeping
pub mod Acquiring
pub mod Waking
pub mod Creating
pub mod Progress
pub mod Runs
pub mod Balance
pub mod Untouched
pub mod Conservation
mod Tests
