-- ===== src/Offline/Tags/Primed.antt =====
-- The first call of the cache, and every later one.
use container_registry.Prelude.{
  true, ok, err, List, [], ◌∷◌, Option, none, some, String, ◌≡◌, refl, inl, inr, arith, string_eq,
  Result-cases,
}
use container_registry.Prelude.Sets.{put}
use container_registry.Offline.Errors.{Error, wrapped}
use container_registry.Offline.Tags.{
  Digest, TagSource, TagCache, new_cache, load_tags, tags_with, tag_names, all, lookup,
}
use container_registry.Offline.Tags.Loaded.{
  Link-cases, IsPrimed, IsLoaded-IsPrimed, load_tags-IsLoaded, load_tags-target, load_tags-absent,
  load_tags-unreadable, load_tags-nil,
}

-- Once primed, the cache answers from its map and stays as it is.
pub lookup-primed :
    (src : TagSource) (d : Digest) (c : TagCache)
    → c.once ≡ true
    → lookup src d c ≡ (ok (tags_with d c.tags), c)
unfolding lookup
lookup-primed src d c e = ground arith

pub all-primed :
    (src : TagSource) (c : TagCache) → c.once ≡ true → all src c ≡ (ok (tag_names c.tags), c)
unfolding all
all-primed src c e = ground arith

load_tags-wrapped :
    (src : TagSource) (names : List String) (m : List (String × Digest)) {e : Error}
    → (load_tags src names m).0 ≡ some e
    → e ≡ wrapped
load_tags-wrapped src [] m h = cc (load_tags-nil src m, h)
load_tags-wrapped src (t ∷ ts) m h = elim (Link-cases (src.current t)) [
  | inl (d, p) ↦ load_tags-wrapped src ts (put t d m) (rw (load_tags-target src t ts m d p) at h)
  | inr (inl p) ↦ load_tags-wrapped src ts m (rw (load_tags-absent src t ts m p) at h)
  | inr (inr p) ↦ cc (load_tags-unreadable src t ts m p, h)
]

-- How the first `All` of a run can end.
pub data FirstAll (src : TagSource) : Type 0 where
  read :
      {c : TagCache} {names : List String}
      → all src new_cache ≡ (ok names, c)
      → IsPrimed src c
      → FirstAll src
  no_folder :
      {e : Error}
      → src.all_tags ≡ err e
      → all src new_cache ≡ (err e, record { once = true; tags = [] })
      → FirstAll src
  broken : {c : TagCache} → all src new_cache ≡ (err wrapped, c) → FirstAll src

all-read :
    (src : TagSource) {names : List String}
    → src.all_tags ≡ ok names
    → (load_tags src names []).0 ≡ none
    → all src new_cache ≡ (
      ok (tag_names (load_tags src names []).1),
      record { once = true; tags = (load_tags src names []).1 },
    )
unfolding all
all-read src e h = ground arith

all-broken :
    (src : TagSource) {names : List String} {x : Error}
    → src.all_tags ≡ ok names
    → (load_tags src names []).0 ≡ some x
    → all src new_cache ≡ (err x, record { once = true; tags = (load_tags src names []).1 })
unfolding all
all-broken src e h = ground arith

all-no_folder :
    (src : TagSource) {x : Error}
    → src.all_tags ≡ err x
    → all src new_cache ≡ (err x, record { once = true; tags = [] })
unfolding all
all-no_folder src e = ground arith

FirstAll-loaded :
    (src : TagSource) (names : List String)
    → src.all_tags ≡ ok names
    → (o : Option Error) → (load_tags src names []).0 ≡ o
    → FirstAll src
FirstAll-loaded src names e none h =
    read (all-read src e h)
      (IsLoaded-IsPrimed src names e (load_tags-IsLoaded src names [] (λ t d i. elim i [ ]) h))
FirstAll-loaded src names e (some x) h =
    broken (rw (load_tags-wrapped src names [] h) at (all-broken src e h))

pub first_all : (src : TagSource) → FirstAll src
first_all src = elim (Result-cases src.all_tags) [
  | inl (names, e) ↦ FirstAll-loaded src names e _ refl
  | inr (x, e) ↦ no_folder e (all-no_folder src e)
]

-- A missing tags folder counts as a folder without tags.
pub unknown-IsPrimed :
    (src : TagSource) {x : Error}
    → src.all_tags ≡ err x
    → IsPrimed src (record { once = true; tags = [] })
unfolding tags_with
unknown-IsPrimed src e = record {
  read = refl;
  tagged = λ d t i. elim i [ ];
  complete = λ d g. cc (e, g.listed);
}
