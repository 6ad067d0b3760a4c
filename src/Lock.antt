-- ===== src/Lock.antt =====
-- The operation lock on a CNPG cluster (src/engine/cnpgjob/lock.go): the lease, the steps of its clients,
-- and when two of them may hold it.
mod Lease
mod Steps
pub mod Consistent
pub mod Preserving
pub mod Exclusion
unfoldable pub use Lease.*
unfoldable pub use Steps.*
