-- ===== src/Programs.antt =====
-- Projects/OS161/bin/cat/cat.c and Projects/OS161/bin/cp/cp.c
pub mod Process
pub mod Copying
pub mod Cat
pub mod Cp
pub mod Transfers
pub mod Copies
pub mod Names
pub mod Removing
mod Tests
