-- ===== src/Cats.antt =====
-- Projects/OS161/kern/asst1/catsem.c and catlock.c
pub mod Drivers
pub mod Forks
pub mod Starting
pub mod Example
mod Tests
