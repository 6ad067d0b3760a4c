-- ===== src/Escrow.antt =====
-- Escrow (src/engine/escrow): how a provider is chosen, the gate that a destructive operation
-- passes, and the discovery of the volumes to capture.
mod Defs
mod Select
mod Gate
mod Volumes
pub mod Selecting
pub mod Guard
pub mod Discovery
unfoldable pub use Defs.*
unfoldable pub use Select.*
unfoldable pub use Gate.*
unfoldable pub use Volumes.*
