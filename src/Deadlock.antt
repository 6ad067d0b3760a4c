-- ===== src/Deadlock.antt =====
-- The recovery of a CNPG instance that is too full to start (src/engine/prunewal/deadlock.go): what it
-- reads, the replay on the volume, and what becomes of the instance.
mod Reading
mod Recover
pub mod Trimming
pub mod Releasing
unfoldable pub use Reading.*
unfoldable pub use Recover.*
