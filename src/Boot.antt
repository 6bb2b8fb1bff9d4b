-- ===== src/Boot.antt =====
-- Projects/OS161/kern/main/main.c with the end of kern/thread/scheduler.c and thread.c, and
-- kern/mips/lamebus_mips.c
pub mod State
pub mod Shutdown
pub mod Startup
pub mod Bus
pub mod Dropping
pub mod Ending
pub mod Running
mod Tests
