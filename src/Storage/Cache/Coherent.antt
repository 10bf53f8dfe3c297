-- ===== src/Storage/Cache/Coherent.antt =====
-- The statter with a cache, against the backend by itself.
use container_registry.Prelude.{
  Result, ok, err, List, ◌∷◌, [], Option, some, none, ◌≡◌, ◌≢◌, ◌⊎◌, inl, inr, refl, sym, ap, ap₂,
  ◌∙◌, All, string_eq, subst,
}
use container_registry.Offline.Tags.{Digest}
use container_registry.Storage.Stores.{Descriptor}
use container_registry.Storage.Cache.{
  CacheError, unknown, invalid, failed, DescriptorService, CacheLaws, Both, answered, Clearing,
  after_cache, clear_step, clear_around, error_of, cached_stat, cached_clear,
}

-- What is relied on of a backend: clearing a digest leaves what it says of the others.
pub record BackendLaws (backend : DescriptorService) : Type 0 where
  pub stat-clear_other :
      (d e : Digest) (b : backend.State)
      → (backend.clear d b).0 ≡ none
      → e ≢ d
      → backend.stat e (backend.clear d b).1 ≡ backend.stat e b

pub data Call : Type 0 where
  asks clears : Digest → Call

pub data Answer : Type 0 where
  described : Result CacheError Descriptor → Answer
  cleared : Option CacheError → Answer

-- no call of `Clear` that failed
abbrev pub HasCleared : Answer → Type 0
HasCleared (described r) = Unit
HasCleared (cleared e) = e ≡ none

abbrev pub behind : {S : Type 0} → Answer → List Answer × S → List Answer × S
behind a w = (a ∷ w.0, w.1)

module _ (cache backend : DescriptorService) (laws : CacheLaws cache) where
  -- Whatever the cache holds, the backend says.
  abbrev pub IsCoherent : Both cache backend → Type 0
  IsCoherent (c, b) = (d : Digest) (x : Descriptor) → laws.Holds d x c → backend.stat d b ≡ ok x

  unfoldable pub call_cached : Call → Both cache backend → Answer × Both cache backend
  call_cached (asks d) s = let (r, s') = cached_stat cache backend d s in (described r, s')
  call_cached (clears d) s = let (e, s') = cached_clear cache backend d s in (cleared e, s')

  unfoldable pub call_backend : Call → backend.State → Answer × backend.State
  call_backend (asks d) b = (described (backend.stat d b), b)
  call_backend (clears d) b = let (e, b') = backend.clear d b in (cleared e, b')

  -- The answers to calls, one behind the other.
  unfoldable pub calls_cached : List Call → Both cache backend → List Answer × Both cache backend
  calls_cached [] s = ([], s)
  calls_cached (k ∷ ks) s = behind (call_cached k s).0 (calls_cached ks (call_cached k s).1)

  unfoldable pub calls_backend : List Call → backend.State → List Answer × backend.State
  calls_backend [] b = ([], b)
  calls_backend (k ∷ ks) b = behind (call_backend k b).0 (calls_backend ks (call_backend k b).1)

  -- The answer is the backend's, and the cache is left as it was or is set to it.
  answered-right :
      (rc rb : Result CacheError Descriptor) (d : Digest) (c : cache.State)
      → ((x : Descriptor) → rc ≡ ok x → rb ≡ ok x)
      → ((answered cache backend rc rb d c).0 ≡ rb)
        × (((answered cache backend rc rb d c).1 ≡ c)
            ⊎ ((x : Descriptor) × (rb ≡ ok x)
                × ((answered cache backend rc rb d c).1 ≡ (cache.set d x c).1)))
  answered-right (ok x) rb d c h = (sym (h x refl), inl refl)
  answered-right (err e) (err e') d c h = (refl, inl refl)
  answered-right (err unknown) (ok x) d c h = (refl, inr (x, refl, refl))
  answered-right (err invalid) (ok x) d c h = (refl, inl refl)
  answered-right (err (failed e)) (ok x) d c h = (refl, inl refl)

  stat-right :
      (d : Digest) (c : cache.State) (b : backend.State)
      → IsCoherent (c, b)
      → ((cached_stat cache backend d (c, b)).0 ≡ backend.stat d b)
        × IsCoherent (cached_stat cache backend d (c, b)).1
        × ((cached_stat cache backend d (c, b)).1.1 ≡ b)
  unfolding cached_stat
  stat-right d c b h =
      let (right, after) =
        answered-right (cache.stat d c) (backend.stat d b) d c
          (λ x e. h d x (laws.stat-Holds d x c e)) in
      (right, kept after, refl)
    where
      c' : cache.State
      c' = (answered cache backend (cache.stat d c) (backend.stat d b) d c).1

      kept :
          (c' ≡ c) ⊎ ((x : Descriptor) × (backend.stat d b ≡ ok x) × (c' ≡ (cache.set d x c).1))
          → IsCoherent (c', b)
      kept (inl same) e y held = h e y (subst (laws.Holds e y) same held)
      kept (inr (x, says, same)) e y held =
          elim (laws.Holds-set d e x y c (subst (laws.Holds e y) same held)) [
            | inl before ↦ h e y before
            | inr (is, too) ↦ ap (λ d. backend.stat d b) is ∙ (says ∙ ap ok (sym too))
          ]

  clear-right :
      (of_backend : BackendLaws backend) (d : Digest) (c : cache.State) (b : backend.State)
      → IsCoherent (c, b)
      → (cached_clear cache backend d (c, b)).0 ≡ none
      → ((backend.clear d b).0 ≡ none)
        × IsCoherent (cached_clear cache backend d (c, b)).1
        × ((cached_clear cache backend d (c, b)).1.1 ≡ (backend.clear d b).1)
  unfolding cached_clear clear_around clear_step
  clear-right of_backend d c b h none_failed =
      let (in_cache, in_backend, same) = both (cache.clear d c) none_failed in
      (
        in_backend,
        subst IsCoherent (sym same) (λ e y held.
            of_backend.stat-clear_other d e b in_backend (λ is.
              laws.cleared d y c in_cache (subst (λ e. laws.Holds e y (cache.clear d c).1) is held))
            ∙ h e y (laws.Holds-clear d e y c held)),
        ap (λ (s : Both cache backend). s.1) same,
      )
    where
      rest : Option CacheError × cache.State → Clearing cache backend × Both cache backend
      rest w = let (k, s) = after_cache cache backend d w b in clear_step cache backend k s

      both :
          (w : Option CacheError × cache.State)
          → error_of cache backend (rest w).0 ≡ none
          → (w.0 ≡ none)
            × ((backend.clear d b).0 ≡ none)
            × ((rest w).1 ≡ (w.1, (backend.clear d b).1))
      both (some e, c) h = cc h
      both (none, c) h = (refl, h, refl)

  -- Calls of `Stat` and `Clear` through a cache that holds nothing the backend does not say, none
  -- of `Clear` failing, are answered as by the backend alone, and leave it as they would.
  pub calls-refine :
      (of_backend : BackendLaws backend) (ks : List Call) (c : cache.State) (b : backend.State)
      → IsCoherent (c, b)
      → All HasCleared (calls_cached ks (c, b)).0
      → ((calls_cached ks (c, b)).0 ≡ (calls_backend ks b).0)
        × ((calls_cached ks (c, b)).1.1 ≡ (calls_backend ks b).1)
        × IsCoherent (calls_cached ks (c, b)).1
  unfolding calls_cached calls_backend call_cached call_backend
  calls-refine of_backend [] c b h all = (refl, refl, h)
  calls-refine of_backend (asks d ∷ ks) c b h all =
      let (right, coherent, same) = stat-right d c b h in
      let s = (cached_stat cache backend d (c, b)).1 in
      let (answers, end, still) = calls-refine of_backend ks s.0 s.1 coherent all.1 in
      (
        ap₂ (λ r answers. described r ∷ answers) right
            (answers ∙ ap (λ b. (calls_backend ks b).0) same),
        end ∙ ap (λ b. (calls_backend ks b).1) same,
        still,
      )
  calls-refine of_backend (clears d ∷ ks) c b h all =
      let (done, coherent, same) = clear-right of_backend d c b h all.0 in
      let s = (cached_clear cache backend d (c, b)).1 in
      let (answers, end, still) = calls-refine of_backend ks s.0 s.1 coherent all.1 in
      (
        ap₂ (λ e answers. cleared e ∷ answers) (all.0 ∙ sym done)
            (answers ∙ ap (λ b. (calls_backend ks b).0) same),
        end ∙ ap (λ b. (calls_backend ks b).1) same,
        still,
      )
