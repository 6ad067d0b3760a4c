-- ===== src/Repair.antt =====
-- Repair (src/engine/repair): the lifecycle, the plan, the escrow before a heal, the proof that the
-- deadlock breaker needs, the verification after a heal, and the donor of a Galera cluster.
mod Service
mod Proof
mod Plan
mod Capture
mod Donor
mod Breaker
mod Waiting
mod Aim
mod HealNode
mod HealInstance
pub mod Lifecycle
pub mod Healing
pub mod Success
pub mod Clearing
pub mod Unwedge
pub mod Targets
pub mod Promoting
pub mod Lineages
pub mod Donating
pub mod Verifying
pub mod Aiming
pub mod Reseeding
pub mod Rejoining
unfoldable pub use Service.*
unfoldable pub use Proof.*
unfoldable pub use Plan.*
unfoldable pub use Capture.*
unfoldable pub use Donor.*
unfoldable pub use Breaker.*
unfoldable pub use Waiting.*
unfoldable pub use Aim.*
unfoldable pub use HealNode.*
unfoldable pub use HealInstance.*
