-- ===== src/Spl.antt =====
-- Projects/OS161/kern/mips/spl.c: the interrupt priority level and the interrupt enable bit of the
-- status register. SPL_HIGH is the machine's (its header is not in the repository): an argument.
mod Levels
pub use Levels.*
unfoldable pub use Levels.{splx, splhigh, spl0, cpu_idle, cpu_halt}
pub mod Nesting
