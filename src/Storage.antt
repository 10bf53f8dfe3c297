-- ===== src/Storage.antt =====
-- registry/storage: the paths of the storage, and the tag store over a storage driver.
pub mod Join
pub mod Paths
pub mod Driver
pub mod Stores
pub mod Tags
pub mod Enumerate
pub mod Purge
pub mod Catalog
pub mod Validation
pub mod Formats
pub mod Manifests
pub mod Cache
pub mod Removal
