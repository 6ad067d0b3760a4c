-- ===== src/PruneWal.antt =====
-- Prune-WAL (src/engine/prunewal): the positions that it reads, the gates before a prune, and which
-- segments it deletes.
mod Lsn
mod Gates
mod Segments
pub mod Printed
pub mod Kept
pub mod Deleted
unfoldable pub use Lsn.*
unfoldable pub use Gates.*
unfoldable pub use Segments.*
