-- ===== src/Storage/Cache.antt =====
-- registry/storage/cache: the statter that asks a cache before its backend, and the cache in memory
-- with its scopes of a repository. The metrics and the logged errors are left out.
pub mod Memory
pub mod Held
pub mod Coherent
pub mod Refilled
use container_registry.Prelude.{
  ◌==◌, string_eq, Bool, true, false, not, ◌&&◌, ◌||◌, if◌then◌else◌, Result, ok, err, List, ◌∷◌,
  [], ◌++◌, Option, some, none, ◌≡◌, ◌⊎◌,
}
use container_registry.Prelude.Bytes.{Bytes, codes, bytes_eq}
use container_registry.Prelude.Sets.{lookup, put, remove}
use container_registry.Offline.Tags.{Digest}
use container_registry.Vacuum.{DigestText}
use container_registry.Storage.Stores.{StoreError, Descriptor}

-- `ErrBlobUnknown`, an invalid digest or descriptor, or an error of the stores
pub data CacheError : Type 0 where
  unknown invalid : CacheError
  failed : StoreError → CacheError

-- `BlobDescriptorService`, where a call that changes the state returns an error, if any
pub record DescriptorService : Type 1 where
  pub State : Type 0
  pub stat : Digest → State → Result CacheError Descriptor
  pub set : Digest → Descriptor → State → Option CacheError × State
  pub clear : Digest → State → Option CacheError × State

-- What a cache may hold for a digest, whether or not it answers with it, and how the calls change
-- that.
pub record CacheLaws (cache : DescriptorService) : Type 1 where
  pub Holds : Digest → Descriptor → cache.State → Type 0
  pub stat-Holds :
      (d : Digest) (x : Descriptor) (c : cache.State) → cache.stat d c ≡ ok x → Holds d x c
  pub Holds-set :
      (d e : Digest) (x y : Descriptor) (c : cache.State)
      → Holds e y (cache.set d x c).1
      → Holds e y c ⊎ ((e ≡ d) × (y ≡ x))
  pub Holds-clear :
      (d e : Digest) (y : Descriptor) (c : cache.State)
      → Holds e y (cache.clear d c).1
      → Holds e y c
  pub cleared :
      (d : Digest) (y : Descriptor) (c : cache.State)
      → (cache.clear d c).0 ≡ none
      → ¬ Holds d y (cache.clear d c).1

-- `cachedBlobStatter`
module _ (cache backend : DescriptorService) where
  abbrev pub Both : Type 0
  Both = cache.State × backend.State

  -- the rest of `Stat`, given what the cache and the backend answer
  abbrev pub answered :
      Result CacheError Descriptor
      → Result CacheError Descriptor
      → Digest
      → cache.State
      → Result CacheError Descriptor × cache.State
  answered (ok desc) r d c = (ok desc, c)
  answered (err e) (err e') d c = (err e', c)
  answered (err unknown) (ok desc) d c = (ok desc, (cache.set d desc c).1)
  answered (err invalid) (ok desc) d c = (ok desc, c)
  answered (err (failed e)) (ok desc) d c = (ok desc, c)

  -- `Stat`
  unfoldable pub cached_stat : Digest → Both → Result CacheError Descriptor × Both
  cached_stat d (c, b) =
      let (r, c') = answered (cache.stat d c) (backend.stat d b) d c in (r, (c', b))

  -- Where a call of `Clear` is: about to clear the cache, about to clear the backend, or returned.
  pub data Clearing : Type 0 where
    begun cache_cleared : Digest → Clearing
    ended : Option CacheError → Clearing

  abbrev pub after_cache :
      Digest → Option CacheError × cache.State → backend.State → Clearing × Both
  after_cache d (some e, c) b = (ended (some e), (c, b))
  after_cache d (none, c) b = (cache_cleared d, (c, b))

  -- One of the two halves of `Clear`: the cache, then the backend. Each is a call of another service,
  -- and nothing keeps other calls from running between them.
  unfoldable pub clear_step : Clearing → Both → Clearing × Both
  clear_step (begun d) (c, b) = after_cache d (cache.clear d c) b
  clear_step (cache_cleared d) (c, b) = let (e, b') = backend.clear d b in (ended e, (c, b'))
  clear_step (ended e) s = (ended e, s)

  -- `Clear`, with what other calls do between the halves
  unfoldable pub clear_around : (Both → Both) → Digest → Both → Clearing × Both
  clear_around between d s = let (k, s') = clear_step (begun d) s in clear_step k (between s')

  abbrev pub error_of : Clearing → Option CacheError
  error_of (begun d) = none
  error_of (cache_cleared d) = none
  error_of (ended e) = e

  -- `Clear` by itself
  unfoldable pub cached_clear : Digest → Both → Option CacheError × Both
  cached_clear d s = let (k, s') = clear_around (λ s. s) d s in (error_of k, s')

  -- `SetDescriptor`, whose error is only logged
  unfoldable pub cached_set : Digest → Descriptor → Both → Option CacheError × Both
  cached_set d desc (c, b) = (none, ((cache.set d desc c).1, b))
