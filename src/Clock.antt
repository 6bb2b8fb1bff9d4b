-- ===== src/Clock.antt =====
-- Projects/OS161/kern/thread/hardclock.c
pub mod Hardclock
pub mod Ticks
mod Tests
