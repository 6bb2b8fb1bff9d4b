-- ===== src/Listing.antt =====
-- Projects/OS161/bin/ls/ls.c
pub mod Setting
pub mod Files
pub mod Options
pub mod Names
pub mod Directories
mod Tests
