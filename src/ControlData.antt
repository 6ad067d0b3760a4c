-- ===== src/ControlData.antt =====
-- What the triage reads of a CNPG instance, and what it makes of it for the decision on authority
-- (src/engine/triage/cnpg.go and cnpg_authority.go).
mod Parse
pub mod Closed
unfoldable pub use Parse.*
