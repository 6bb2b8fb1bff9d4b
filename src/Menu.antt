-- ===== src/Menu.antt =====
-- Projects/OS161/kern/main/menu.c
pub mod Words
pub mod Interval
pub mod Environment
pub mod Commands
pub mod Screens
pub mod Dispatch
pub mod Splitting
pub mod Columns
pub mod Devices
pub mod Running
pub mod Lines
mod Tests
