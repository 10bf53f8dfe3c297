-- ===== src/Offline.antt =====
-- Offline garbage collection: registry/storage/garbagecollect.go and cachedtagstore.go.
pub mod Errors
pub mod Tags
pub mod Mark
pub mod Live
pub mod Plan
