-- ===== src/Storage/Cache/Refilled.antt =====
-- A call of `Stat` between the two halves of `Clear`.
use container_registry.Prelude.{string_eq, true, Result, ok, err, none, ◌≡◌, refl, ap, ap₂, ◌∙◌}
use container_registry.Prelude.Bytes.{Bytes, bytes_eq}
use container_registry.Offline.Tags.{Digest}
use container_registry.Vacuum.{DigestText}
use container_registry.Storage.Stores.{Descriptor}
use container_registry.Storage.Cache.{
  CacheError, unknown, DescriptorService, Both, answered, Clearing, begun, cache_cleared, ended,
  after_cache, clear_step, clear_around, cached_stat, cached_clear,
}
use container_registry.Storage.Cache.Memory.{
  validate_descriptor, map_clear, Scoped, scoped_set, scoped_clear, scoped_cache,
}
use container_registry.Storage.Cache.Held.{stat-scoped_set, stat-scoped_clear}

module _ (t : DigestText) (repo : Bytes) (backend : DescriptorService) where
  abbrev cache : DescriptorService
  cache = scoped_cache t repo

  -- `Clear` of a digest with a call of `Stat` of it between the halves
  abbrev pub cleared_around_stat :
      Digest → Scoped t → backend.State → Clearing cache backend × Both cache backend
  cleared_around_stat d c b =
      clear_around cache backend (λ s. (cached_stat cache backend d s).1) d (c, b)

  clear_no_error :
      (d : Digest) (c : Scoped t) → c.allocated ≡ true → (scoped_clear t repo d c).0 ≡ none
  unfolding scoped_clear map_clear
  clear_no_error d c allocated = rw allocated refl

  -- Where the statter is behind the first half.
  half :
      (d : Digest) (c : Scoped t) (b : backend.State)
      → c.allocated ≡ true
      → clear_step cache backend (begun d) (c, b)
        ≡ (cache_cleared d, ((scoped_clear t repo d c).1, b))
  unfolding clear_step
  half d c b allocated =
      ap (λ e. after_cache cache backend d (e, (scoped_clear t repo d c).1) b)
        (clear_no_error d c allocated)

  stat_between :
      (d : Digest) (x : Descriptor) (c : Scoped t) (b : backend.State)
      → t.validate d ≡ true
      → c.allocated ≡ true
      → backend.stat d b ≡ ok x
      → cached_stat cache backend d ((scoped_clear t repo d c).1, b)
        ≡ (ok x, ((scoped_set t repo d x (scoped_clear t repo d c).1).1, b))
  unfolding cached_stat
  stat_between d x c b valid allocated said =
      let emptied = (scoped_clear t repo d c).1 in
      ap₂ (λ r q. let (r, c') = answered cache backend r q d emptied in (r, (c', b)))
        (stat-scoped_clear t repo d c valid allocated) said

  ends :
      (d : Digest) (x : Descriptor) (c : Scoped t) (b : backend.State)
      → t.validate d ≡ true
      → c.allocated ≡ true
      → backend.stat d b ≡ ok x
      → cleared_around_stat d c b ≡ (
        ended (backend.clear d b).0,
        ((scoped_set t repo d x (scoped_clear t repo d c).1).1, (backend.clear d b).1),
      )
  unfolding clear_around clear_step
  ends d x c b valid allocated said =
      ap
        (λ (w : Clearing cache backend × Both cache backend).
          clear_step cache backend w.0 (cached_stat cache backend d w.1).1)
        (half d c b allocated)
      ∙ ap
          (λ (w : Result CacheError Descriptor × Both cache backend).
            clear_step cache backend (cache_cleared d) w.1)
          (stat_between d x c b valid allocated said)

  stat-set :
      (d : Digest) (x : Descriptor) (c : Scoped t) (b : backend.State)
      → t.validate d ≡ true
      → validate_descriptor t x ≡ true
      → (cached_stat cache backend d ((scoped_set t repo d x c).1, b)).0 ≡ ok x
  unfolding cached_stat
  stat-set d x c b valid proper =
      ap (λ r. (answered cache backend r (backend.stat d b) d (scoped_set t repo d x c).1).0)
        (stat-scoped_set t repo d x c valid proper)

  stat_cleared :
      (d : Digest) (c : Scoped t) (b : backend.State)
      → t.validate d ≡ true
      → c.allocated ≡ true
      → backend.stat d (backend.clear d b).1 ≡ err unknown
      → (cached_stat cache backend d (cached_clear cache backend d (c, b)).1).0 ≡ err unknown
  unfolding cached_stat cached_clear clear_around clear_step
  stat_cleared d c b valid allocated gone =
      ap
        (λ (w : Clearing cache backend × Both cache backend).
          (cached_stat cache backend d (clear_step cache backend w.0 w.1).1).0)
        (half d c b allocated)
      ∙ ap₂ (λ r q. (answered cache backend r q d (scoped_clear t repo d c).1).0)
          (stat-scoped_clear t repo d c valid allocated) gone

  -- `Clear` by itself, for a valid digest and with an allocated cache in memory, leaves a digest that
  -- the backend does not describe any more once it has cleared it unknown to the statter with the cache.
  -- With a call of `Stat` between the halves of `Clear`, where the backend described the digest properly, `Clear`
  -- answers as the backend does, and behind it the statter describes the digest where the backend does not.
  pub stat-refilled :
      (d : Digest) (x : Descriptor) (c : Scoped t) (b : backend.State)
      → t.validate d ≡ true
      → validate_descriptor t x ≡ true
      → c.allocated ≡ true
      → backend.stat d b ≡ ok x
      → backend.stat d (backend.clear d b).1 ≡ err unknown
      → ((cached_stat cache backend d (cached_clear cache backend d (c, b)).1).0 ≡ err unknown)
        × ((cleared_around_stat d c b).0 ≡ ended (backend.clear d b).0)
        × ((cached_stat cache backend d (cleared_around_stat d c b).1).0 ≡ ok x)
        × (backend.stat d (cleared_around_stat d c b).1.1 ≡ err unknown)
  stat-refilled d x c b valid proper allocated said gone =
      let end = ends d x c b valid allocated said in
      let filled = (scoped_clear t repo d c).1 in
      (
        stat_cleared d c b valid allocated gone,
        ap (λ (w : Clearing cache backend × Both cache backend). w.0) end,
        ap
              (λ (w : Clearing cache backend × Both cache backend).
                (cached_stat cache backend d w.1).0)
              end
            ∙ stat-set d x filled (backend.clear d b).1 valid proper,
        ap (λ (w : Clearing cache backend × Both cache backend). backend.stat d w.1.1) end ∙ gone,
      )
