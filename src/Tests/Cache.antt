-- ===== src/Tests/Cache.antt =====
-- A cache of a repository in memory over a map of descriptors.
use container_registry.Prelude.{
  ◌==◌, string_eq, true, not, if◌then◌else◌, ok, err, List, [], ◌∷◌, ◌≡◌, ◌≢◌, refl, sym, ap, ◌∙◌,
  Bool-cases, inl, inr, All,
}
use container_registry.Prelude.Bytes.{codes, bytes_eq}
use container_registry.Prelude.Sets.{lookup, put, remove, lookup-remove}
use container_registry.Offline.Tags.{Digest}
use container_registry.Storage.Stores.{Descriptor}
use container_registry.Storage.Cache.{
  unknown, invalid, DescriptorService, cached_stat, cached_clear, clear_around, clear_step, ended,
}
use container_registry.Storage.Cache.Memory.{
  Descriptors, map_stat, map_set, map_clear, known_or, Scoped, new_provider, scoped_cache,
  scoped_stat, scoped_set, scoped_clear, provider_set, validate_descriptor,
}
use container_registry.Storage.Cache.Held.{scoped-CacheLaws}
use container_registry.Storage.Cache.Coherent.{
  BackendLaws, Call, asks, clears, HasCleared, IsCoherent, calls_cached, calls_backend, call_cached,
  calls-refine,
}
use container_registry.Storage.Cache.Refilled.{cleared_around_stat, stat-refilled}
use container_registry.Tests.Registry.{first, second, known}
use container_registry.Tests.Stores.{app}

abbrev backend : DescriptorService
backend = record {
  State = Descriptors;
  stat = map_stat known;
  set = map_set known;
  clear = map_clear known;
}

lookup_other : (d e : Digest) (m : Descriptors) → e ≢ d → lookup e (remove d m) ≡ lookup e m
lookup_other d e m n = elim (Bool-cases (d == e)) [
  | inl same ↦ absurd (n (sym ((string_eq.beq_iff d e).0 same)))
  | inr other ↦ lookup-remove d e m ∙ rw other refl
]

backend-BackendLaws : BackendLaws backend
unfolding map_stat map_clear
backend-BackendLaws = record {
  stat-clear_other = λ d e b h n.
      ap (λ o. if not (known.validate e) then err invalid else known_or known o)
        (lookup_other d e b n);
}

abbrev blob : Descriptor
blob = record { size = 3; media_type = codes "t"; digest = first }

abbrev held : Descriptors
held = (first, blob) ∷ []

abbrev scope : Scoped known
scope = record { allocated = true; provider = new_provider known }

abbrev calls : List Call
calls = asks first ∷ asks second ∷ asks first ∷ clears first ∷ asks first ∷ []

nothing_held :
    IsCoherent (scoped_cache known app) backend (scoped-CacheLaws known app) (scope, held)
unfolding lookup
nothing_held d x h = cc h

all_cleared :
    All HasCleared
      (calls_cached
        (scoped_cache known app)
        backend
        (scoped-CacheLaws known app)
        calls
        (scope, held)).0
unfolding calls_cached call_cached cached_stat cached_clear clear_around clear_step scoped_clear
    map_clear scoped_stat scoped_set map_set map_stat provider_set lookup put remove
    validate_descriptor
all_cleared = (tt, (tt, (tt, (refl, (tt, tt)))))

calls-refine_example :
    ((calls_cached
        (scoped_cache known app)
        backend
        (scoped-CacheLaws known app)
        calls
        (scope, held)).0
      ≡ (calls_backend (scoped_cache known app) backend (scoped-CacheLaws known app) calls held).0)
    × ((calls_cached
          (scoped_cache known app)
          backend
          (scoped-CacheLaws known app)
          calls
          (scope, held)).1.1
        ≡ (calls_backend
            (scoped_cache known app)
            backend
            (scoped-CacheLaws known app)
            calls
            held).1)
    × IsCoherent
        (scoped_cache known app)
        backend
        (scoped-CacheLaws known app)
        (calls_cached
          (scoped_cache known app)
          backend
          (scoped-CacheLaws known app)
          calls
          (scope, held)).1
calls-refine_example =
    calls-refine (scoped_cache known app) backend (scoped-CacheLaws known app) backend-BackendLaws
      calls scope held nothing_held all_cleared

stat-refilled_example :
    ((cached_stat
        (scoped_cache known app)
        backend
        first
        (cached_clear (scoped_cache known app) backend first (scope, held)).1).0
      ≡ err unknown)
    × ((cleared_around_stat known app backend first scope held).0
        ≡ ended (backend.clear first held).0)
    × ((cached_stat
          (scoped_cache known app)
          backend
          first
          (cleared_around_stat known app backend first scope held).1).0
        ≡ ok blob)
    × (backend.stat first (cleared_around_stat known app backend first scope held).1.1
        ≡ err unknown)
unfolding map_stat map_clear lookup remove validate_descriptor
stat-refilled_example =
    stat-refilled known app backend first blob scope held refl refl refl refl refl
