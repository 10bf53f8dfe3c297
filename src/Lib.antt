-- ===== src/Lib.antt =====
-- Container registry: the parts of the registry that delete things, that hand events on, that
-- expire cached content and that decide who may do what.
--
-- Offline (registry/storage/garbagecollect.go, cachedtagstore.go): `MarkAndSweep`. `Tags` is the
-- cached tag store, `Mark` the mark stage of one repository, `Plan` the stage over all repositories,
-- the blobs that nothing marks, and the sweep. `Live` says independently what has to be kept. The
-- registry is a record of what the enumerators, the tag store and the manifest services return.
-- The source works through its sets in goroutines that only add to shared sets; here these are loops.
-- Vacuum (registry/storage/vacuum.go, the blob paths of paths.go): the paths and the calls of the
-- storage driver by which `Plan` deletes. The driver (`Deleter`) and the digest library
-- (`DigestText`) are parameters with what they document as fields; Tests/Storage.antt has one of each.
-- Online (registry/gc/worker): `BlobWorker` and `ManifestWorker` are `processTask` of the two
-- workers, each a run that lists its calls of database and storage (`Trace`), given what these
-- answer; `Backoff` is `exponentialBackoff` with the wrap-around of int64.
-- Notifications (notifications/sinks.go): `Queue` is eventQueue, a step relation over its writers,
-- the goroutine of `run` and `Close`; `Ignored` is ignoredSink and `Retrying` is retryingSink, whose
-- loop runs over a list of rounds that its surroundings decide. `Broadcaster` is a step relation
-- over its unbuffered channels, with one call of `Close` at a time.
-- Scheduler (registry/proxy/scheduler/scheduler.go): entries and timers; a timer that fires and the
-- function that it runs are two steps, since the function waits for the mutex.
-- Token (registry/auth/token): `Access` is the access set of a token, `Verify` its verification and
-- the choice of the signing key, `Time` what it uses of Go's package time with the wrap-around of
-- time.Unix, `Trust` which keys may sign, and `Controller` is `Authorized`. Certificates, keys and
-- signatures (`Crypto`) and the decoding of a token are parameters; the clock is not before 1970.
-- Regulator (registry/storage/driver/base/regulator.go): the slots of a storage driver, a step
-- relation with the goroutines that sleep and those that were woken.
-- DigestSet (digestset/set.go): `Add`, `Remove` and `Lookup` on the sorted entries of a set, with the
-- binary search of sort.Search.
-- Storage (registry/storage): `Join` is what paths.go uses of Go's package path, `Paths` is paths.go
-- (pathFor and digestFromPath), `Driver` what the stores use of a storage driver, as a parameter with
-- documented laws, `Stores` and `Enumerate` are blobstore.go and linkedblobstore.go, `Tags` is
-- tagstore.go, `Catalog` is catalog.go with the walk of driver/walk.go, and `Purge` is
-- purgeuploads.go, with the steps of a parallel walk in any order; the parsing of a UUID is a
-- parameter there; `Removal` is RemoveRepository of vacuum.go and Remove of catalog.go. `Validation`
-- is registry/storage/validation, `Formats` is manifest/schema2, manifest/ocischema and
-- manifest/manifestlist, `Manifests` is manifeststore.go with its handlers; a manifest is stored
-- by `Stores`, which the validators ask by `Lookups`. `Cache` is registry/storage/cache with its cache
-- in memory, over a backend that follows `BackendLaws`; its `Clear` is two steps. `Paths` and
-- `Vacuum` name the same files; `Tags` is the store that the cached tag store of `Offline` reads.
-- Prelude: shared types, tests, lists, sets and maps as lists, bytes, int64. Tests: small inputs.
--
-- Fuel: the loop that cuts the batches of manifests has as many rounds as there are manifests,
-- which is enough since a round takes at least one; the loop of the event queue alone is given one
-- round more than there are blocks, the last one to find the queue empty.
-- The digits of an offset have as many rounds as its value, which has fewer digits.
-- The binary search has as many rounds as there are entries, and each halves what is left.
--
-- Not modelled: the HTTP API, the SQL of the database, the storage drivers, the blob
-- writer, signed manifests and JSON, references and configuration, the client, logs and
-- metrics; of the modelled files: ShortCodeTable of set.go, the uploads
-- of linkedblobstore.go and the walk over its links, the cache in Redis, the parallel walk of
-- catalog.go, and the challenge header of accesscontroller.go.
pub mod Prelude
pub mod Offline
pub mod Vacuum
pub mod Online
pub mod Notifications
pub mod Scheduler
pub mod Regulator
pub mod Token
pub mod DigestSet
pub mod Storage
pub mod Tests
