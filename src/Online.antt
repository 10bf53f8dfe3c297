-- ===== src/Online.antt =====
-- Online garbage collection: the workers of registry/gc/worker.
pub mod Backoff
pub mod Trace
pub mod BlobWorker
pub mod ManifestWorker
