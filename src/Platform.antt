-- ===== src/Platform.antt =====
-- The interface to code that the repository calls and does not hold, and an instance of it.
mod Interface
pub use Interface.*
pub mod Indexing
pub mod Bounded
