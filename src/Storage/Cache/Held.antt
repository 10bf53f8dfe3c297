-- ===== src/Storage/Cache/Held.antt =====
-- What the cache of a repository in memory holds: the laws of a cache.
use container_registry.Prelude.{
  ◌==◌, string_eq, true, if◌then◌else◌, ok, err, Option, some, none, ◌≡◌, ◌⊎◌, inl, inr, refl, sym,
  ap, ◌∙◌, Bool-cases,
}
use container_registry.Prelude.Bytes.{Bytes, bytes_eq, bytes_beq_iff}
use container_registry.Prelude.Sets.{lookup, put, remove, lookup-put, lookup-remove}
use container_registry.Offline.Tags.{Digest}
use container_registry.Vacuum.{DigestText}
use container_registry.Storage.Stores.{Descriptor}
use container_registry.Storage.Cache.{CacheError, unknown, CacheLaws}
use container_registry.Storage.Cache.Memory.{
  Descriptors, known_or, map_stat, map_set, map_clear, validate_descriptor, Provider, Scoped,
  map_of, or_empty_map, with_map, then_global, provider_set, scoped_stat, scoped_set, scoped_clear,
  scoped_cache,
}

module _ (t : DigestText) where
  abbrev pub IsHeldIn : Bytes → Digest → Descriptor → Scoped t → Type 0
  IsHeldIn repo d x s = lookup d (map_of t repo s.provider) ≡ some x

  map_stat-lookup :
      (d : Digest) (x : Descriptor) (m : Descriptors) → map_stat t d m ≡ ok x → lookup d m ≡ some x
  unfolding map_stat
  map_stat-lookup d x m h = elim (Bool-cases (t.validate d)) [
    | inr e ↦ cc (rw e at h)
    | inl e ↦ known (lookup d m) (rw e at h)
  ]
    where
      known : (o : Option Descriptor) → known_or t o ≡ ok x → o ≡ some x
      known none h = cc h
      known (some y) h = cc h

  pub stat-held :
      (repo : Bytes) (d : Digest) (x : Descriptor) (s : Scoped t)
      → scoped_stat t repo d s ≡ ok x
      → IsHeldIn repo d x s
  unfolding scoped_stat
  stat-held repo d x s h = elim (Bool-cases s.allocated) [
    | inr e ↦ cc (rw e at h)
    | inl e ↦ map_stat-lookup d x (map_of t repo s.provider) (rw e at h)
  ]

  map-with :
      (repo : Bytes) (w : Option CacheError × Descriptors) (p : Provider t)
      → map_of t repo (with_map t repo w p).1 ≡ w.1
  map-with repo (e, m) p =
      let found : lookup repo (put repo m p.repositories) ≡ some m =
        lookup-put repo repo m p.repositories ∙ rw ((bytes_beq_iff repo repo).1 refl) refl in
      ap (or_empty_map t) found

  lookup-map_set :
      (d e : Digest) (x y : Descriptor) (m : Descriptors)
      → lookup e (map_set t d x m).1 ≡ some y
      → (lookup e m ≡ some y) ⊎ ((e ≡ d) × (y ≡ x))
  unfolding map_set
  lookup-map_set d e x y m h = elim (Bool-cases (t.validate d)) [
    | inr n ↦ inl (rw n at h)
    | inl v ↦ elim (Bool-cases (validate_descriptor t x)) [
      | inr n ↦ inl (rw (v, n) at h)
      | inl w ↦
          let there : (if d == e then some x else lookup e m) ≡ some y =
            sym (lookup-put d e x m) ∙ (rw (v, w) at h) in
          elim (Bool-cases (d == e)) [
            | inr n ↦ inl (rw n at there)
            | inl same ↦
                let found : some x ≡ some y = rw same at there in
                inr (sym ((string_eq.beq_iff d e).0 same), cc found)
          ]
    ]
  ]

  provider_set-map :
      (repo : Bytes) (d : Digest) (x : Descriptor) (p : Provider t)
      → map_of t repo (provider_set t d x p).1 ≡ map_of t repo p
  unfolding provider_set
  provider_set-map repo d x p = refl

  then_global-map :
      (repo : Bytes) (w : Option CacheError × Provider t) (d : Digest) (x : Descriptor)
      → map_of t repo (then_global t w d x).1 ≡ map_of t repo w.1
  then_global-map repo (none, p) d x = provider_set-map repo d x p
  then_global-map repo (some e, p) d x = refl

  pub set-held :
      (repo : Bytes) (d e : Digest) (x y : Descriptor) (s : Scoped t)
      → IsHeldIn repo e y (scoped_set t repo d x s).1
      → IsHeldIn repo e y s ⊎ ((e ≡ d) × (y ≡ x))
  unfolding scoped_set
  set-held repo d e x y s h =
      let m = map_of t repo s.provider in
      let w = with_map t repo (map_set t d x m) s.provider in
      let same = then_global-map repo w d x ∙ map-with repo (map_set t d x m) s.provider in
      lookup-map_set d e x y m (ap (lookup e) (sym same) ∙ h)

  -- Clearing leaves the map as it is, or takes the digest out.
  cleared-map :
      (repo : Bytes) (d : Digest) (s : Scoped t)
      → ((scoped_clear t repo d s ≡ (some unknown, s))
          ⊎ ((s.allocated ≡ true)
              × (map_of t repo (scoped_clear t repo d s).1.provider
                  ≡ remove d (map_of t repo s.provider))))
  unfolding scoped_clear map_clear
  cleared-map repo d s = elim (Bool-cases s.allocated) [
    | inr n ↦ inl (rw n refl)
    | inl a ↦ inr (a, rw a (map-with repo (none, remove d (map_of t repo s.provider)) s.provider))
  ]

  pub clear-held :
      (repo : Bytes) (d e : Digest) (y : Descriptor) (s : Scoped t)
      → IsHeldIn repo e y (scoped_clear t repo d s).1
      → IsHeldIn repo e y s
  clear-held repo d e y s h = elim (cleared-map repo d s) [
    | inl same ↦
        ap (λ (w : Option CacheError × Scoped t). lookup e (map_of t repo w.1.provider)) (sym same)
        ∙ h
    | inr (a, same) ↦
        let there : (if d == e then none else lookup e (map_of t repo s.provider)) ≡ some y =
          sym (lookup-remove d e (map_of t repo s.provider)) ∙ (ap (lookup e) (sym same) ∙ h) in
        elim (Bool-cases (d == e)) [ inl x ↦ cc (rw x at there) | inr n ↦ rw n at there ]
  ]

  pub cleared-held :
      (repo : Bytes) (d : Digest) (y : Descriptor) (s : Scoped t)
      → (scoped_clear t repo d s).0 ≡ none
      → ¬ IsHeldIn repo d y (scoped_clear t repo d s).1
  cleared-held repo d y s h held = elim (cleared-map repo d s) [
    | inl same ↦ cc (ap (λ (w : Option CacheError × Scoped t). w.0) same, h)
    | inr (a, same) ↦
        let there : (if d == d then none else lookup d (map_of t repo s.provider)) ≡ some y =
          sym (lookup-remove d d (map_of t repo s.provider)) ∙ (ap (lookup d) (sym same) ∙ held) in
        cc (rw ((string_eq.beq_iff d d).1 refl) at there)
  ]

  -- What is set is answered, and what is cleared is unknown.
  pub stat-scoped_set :
      (repo : Bytes) (d : Digest) (x : Descriptor) (s : Scoped t)
      → t.validate d ≡ true
      → validate_descriptor t x ≡ true
      → scoped_stat t repo d (scoped_set t repo d x s).1 ≡ ok x
  unfolding scoped_stat scoped_set map_stat map_set
  stat-scoped_set repo d x s valid proper =
      let m = map_of t repo s.provider in
      let w = with_map t repo (none, put d x m) s.provider in
      let same = then_global-map repo w d x ∙ map-with repo (none, put d x m) s.provider in
      let found : lookup d (put d x m) ≡ some x =
        lookup-put d d x m ∙ rw ((string_eq.beq_iff d d).1 refl) refl in
      rw (valid, proper) (ap (known_or t) (ap (lookup d) same ∙ found))

  pub stat-scoped_clear :
      (repo : Bytes) (d : Digest) (s : Scoped t)
      → t.validate d ≡ true
      → s.allocated ≡ true
      → scoped_stat t repo d (scoped_clear t repo d s).1 ≡ err unknown
  unfolding scoped_stat scoped_clear map_stat map_clear
  stat-scoped_clear repo d s valid allocated =
      let m = map_of t repo s.provider in
      let lost : lookup d (remove d m) ≡ none =
        lookup-remove d d m ∙ rw ((string_eq.beq_iff d d).1 refl) refl in
      rw (allocated, valid)
        (ap (known_or t) (ap (lookup d) (map-with repo (none, remove d m) s.provider) ∙ lost))

  -- A cache of a repository in memory is one, by what the map of the repository has.
  abbrev pub scoped-CacheLaws : (repo : Bytes) → CacheLaws (scoped_cache t repo)
  scoped-CacheLaws repo = record {
    Holds = IsHeldIn repo;
    stat-Holds = stat-held repo;
    Holds-set = set-held repo;
    Holds-clear = clear-held repo;
    cleared = cleared-held repo;
  }
