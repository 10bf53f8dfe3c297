-- ===== src/Storage/Cache/Memory.antt =====
-- registry/storage/cache/memory: maps of descriptors, one for all and one for each repository. A
-- map is mutated under its mutex, so that each call is one step.
use container_registry.Prelude.{
  ◌==◌, string_eq, Bool, true, false, not, ◌&&◌, if◌then◌else◌, Result, ok, err, List, [], Option,
  some, none,
}
use container_registry.Prelude.Bytes.{Bytes, bytes_eq}
use container_registry.Prelude.Sets.{lookup, put, remove}
use container_registry.Offline.Tags.{Digest}
use container_registry.Vacuum.{DigestText}
use container_registry.Storage.Stores.{Descriptor}
use container_registry.Storage.Cache.{CacheError, unknown, invalid, DescriptorService}

abbrev pub Descriptors : Type 0
Descriptors = List (Digest × Descriptor)

module _ (t : DigestText) where
  abbrev pub known_or : Option Descriptor → Result CacheError Descriptor
  known_or none = err unknown
  known_or (some desc) = ok desc

  -- `mapBlobDescriptorCache.Stat`
  unfoldable pub map_stat : Digest → Descriptors → Result CacheError Descriptor
  map_stat d m = if not (t.validate d) then err invalid else known_or (lookup d m)

  -- `ValidateDescriptor`, where no size is negative
  unfoldable pub validate_descriptor : Descriptor → Bool
  validate_descriptor desc = t.validate desc.digest && not (desc.media_type == [])

  -- `mapBlobDescriptorCache.SetDescriptor`
  unfoldable pub map_set : Digest → Descriptor → Descriptors → Option CacheError × Descriptors
  map_set d desc m =
      if not (t.validate d)
      then (some invalid, m)
      else if not (validate_descriptor desc)
      then (some invalid, m)
      else (none, put d desc m)

  -- `mapBlobDescriptorCache.Clear`
  unfoldable pub map_clear : Digest → Descriptors → Option CacheError × Descriptors
  map_clear d m = (none, remove d m)

  -- `inMemoryBlobDescriptorCacheProvider`
  pub record Provider : Type 0 where
    pub global : Descriptors
    pub repositories : List (Bytes × Descriptors)

  abbrev pub new_provider : Provider
  new_provider = record { global = []; repositories = [] }

  abbrev pub then_set :
      Option CacheError × Descriptors → Digest → Descriptor → Option CacheError × Descriptors
  then_set (some e, m) d desc = (some e, m)
  then_set (none, m) d desc = map_set d desc m

  -- the canonical digest first, if it differs from the one that is set
  abbrev pub set_unknown : Digest → Descriptor → Descriptors → Option CacheError × Descriptors
  set_unknown d desc m =
      if not (t.algorithm d == t.algorithm desc.digest) && not (d == desc.digest)
      then then_set (map_set desc.digest desc m) d desc
      else map_set d desc m

  abbrev pub set_if_unknown :
      Result CacheError Descriptor
      → Digest
      → Descriptor
      → Descriptors
      → Option CacheError × Descriptors
  set_if_unknown (ok x) d desc m = (none, m)
  set_if_unknown (err unknown) d desc m = set_unknown d desc m
  set_if_unknown (err e) d desc m = (some e, m)

  -- `inMemoryBlobDescriptorCacheProvider.SetDescriptor`
  unfoldable pub provider_set : Digest → Descriptor → Provider → Option CacheError × Provider
  provider_set d desc p =
      let (e, m) = set_if_unknown (map_stat d p.global) d desc p.global in
      (e, record p { global = m })

  -- `repositoryScopedInMemoryBlobDescriptorCache`, whose map is that of the provider once
  -- `repository` is no nil pointer
  pub record Scoped : Type 0 where
    pub allocated : Bool
    pub provider : Provider

  abbrev pub or_empty_map : Option Descriptors → Descriptors
  or_empty_map none = []
  or_empty_map (some m) = m

  abbrev pub map_of : Bytes → Provider → Descriptors
  map_of repo p = or_empty_map (lookup repo p.repositories)

  abbrev pub is_there : Option Descriptors → Bool
  is_there none = false
  is_there (some m) = true

  -- `RepositoryScoped`, for a name that is parsed
  unfoldable pub repository_scoped : Bytes → Provider → Scoped
  repository_scoped repo p = record {
    allocated = is_there (lookup repo p.repositories);
    provider = p;
  }

  unfoldable pub scoped_stat : Bytes → Digest → Scoped → Result CacheError Descriptor
  scoped_stat repo d s =
      if not s.allocated then err unknown else map_stat d (map_of repo s.provider)

  abbrev pub with_map :
      Bytes → Option CacheError × Descriptors → Provider → Option CacheError × Provider
  with_map repo (e, m) p = (e, record p { repositories = put repo m p.repositories })

  unfoldable pub scoped_clear : Bytes → Digest → Scoped → Option CacheError × Scoped
  scoped_clear repo d s =
      if not s.allocated
      then (some unknown, s)
      else let (e, p) = with_map repo (map_clear d (map_of repo s.provider)) s.provider in
        (e, record s { provider = p })

  abbrev pub then_global :
      Option CacheError × Provider → Digest → Descriptor → Option CacheError × Provider
  then_global (some e, p) d desc = (some e, p)
  then_global (none, p) d desc = provider_set d desc p

  -- the map is allocated, or read back, before it is set, and the map of all is set after it
  unfoldable pub scoped_set : Bytes → Digest → Descriptor → Scoped → Option CacheError × Scoped
  scoped_set repo d desc s =
      let w = with_map repo (map_set d desc (map_of repo s.provider)) s.provider in
      let (e, p) = then_global w d desc in (e, record { allocated = true; provider = p })

  abbrev pub scoped_cache : Bytes → DescriptorService
  scoped_cache repo = record {
    State = Scoped;
    stat = scoped_stat repo;
    set = scoped_set repo;
    clear = scoped_clear repo;
  }
