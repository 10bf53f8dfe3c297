-- ===== src/Tests.antt =====
-- Concrete inputs: the theorems applied where their hypotheses hold, and runs of the definitions.
pub mod Storage
pub mod Registry
pub mod Stores
pub mod Purge
pub mod Catalog
pub mod Manifests
pub mod Cache
pub mod Offline
pub mod Online
pub mod Notifications
pub mod Broadcaster
pub mod Scheduler
pub mod Token
pub mod Regulator
pub mod DigestSet
