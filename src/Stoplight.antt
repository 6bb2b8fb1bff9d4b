-- ===== src/Stoplight.antt =====
-- Projects/OS161/kern/asst1/stoplight.c
pub mod Vehicle
pub mod World
pub mod Creating
pub mod Vehicles
pub mod Shape
pub mod Exclusion
pub mod Jam
pub mod Deadlock
mod Tests
