-- ===== src/Offline/Tags.antt =====
-- registry/storage/cachedtagstore.go: the tags of a repository, read once. `TagSource` is what
-- `Prime` reads: `tagStore.All`, and what `readlink` finds at a tag's current link.
pub mod Loaded
pub mod Primed
use container_registry.Prelude.{
  Bool, true, false, if◌then◌else◌, Result, ok, err, List, [], ◌∷◌, Option, none, some, String, map,
  ◌==◌, ◌≡◌, string_eq,
}
use container_registry.Prelude.Sets.{put}
use container_registry.Offline.Errors.{Error, wrapped, Res}

abbrev pub Digest : Type 0
Digest = String

-- A digest, a `PathNotFoundError`, or another error. The path of a valid tag is always formed.
pub data Link : Type 0 where
  target : Digest → Link
  absent unreadable : Link

pub record TagSource : Type 0 where
  pub all_tags : Res (List String)
  pub current : String → Link

-- `once` tells whether the `sync.Once` has run, with or without success.
pub record TagCache : Type 0 where
  pub once : Bool
  pub tags : List (String × Digest)

abbrev pub new_cache : TagCache
new_cache = record { once = false; tags = [] }

-- One round of the loop over `allTags`: what `readlink` gave for the tag.
unfoldable pub store_tag :
    String → Link → List (String × Digest) → Option Error × List (String × Digest)
store_tag t (target d) acc = (none, put t d acc)
store_tag t absent acc = (none, acc)
store_tag t unreadable acc = (some wrapped, acc)

unfoldable pub load_tags :
    TagSource → List String → List (String × Digest) → Option Error × List (String × Digest)
load_tags src [] acc = (none, acc)
load_tags src (t ∷ ts) acc =
    let (failed, acc') = store_tag t (src.current t) acc in
    elim failed [ none ↦ load_tags src ts acc' | some e ↦ (some e, acc') ]

-- The body of `once.Do`.
unfoldable pub prime_once : TagSource → Res (List String) → TagCache → Option Error × TagCache
prime_once src (ok names) c =
    let (failed, loaded) = load_tags src names c.tags in
    (failed, record { once = true; tags = loaded })
prime_once src (err e) c = (some e, record c { once = true })

unfoldable pub prime : TagSource → TagCache → Option Error × TagCache
unfolding prime_once load_tags store_tag
prime src c = if c.once then (none, c) else prime_once src src.all_tags c

pub tag_names : List (String × Digest) → List String
tag_names [] = []
tag_names ((t, d) ∷ m) = t ∷ tag_names m

pub tags_with : Digest → List (String × Digest) → List String
tags_with d [] = []
tags_with d ((t, x) ∷ m) = let rest = tags_with d m in if x == d then t ∷ rest else rest

unfoldable pub all : TagSource → TagCache → Res (List String) × TagCache
unfolding tag_names prime
all src c =
    let (failed, c') = prime src c in
    (elim failed [ none ↦ ok (tag_names c'.tags) | some e ↦ err e ], c')

unfoldable pub lookup : TagSource → Digest → TagCache → Res (List String) × TagCache
unfolding tags_with prime
lookup src d c =
    let (failed, c') = prime src c in
    (elim failed [ none ↦ ok (tags_with d c'.tags) | some e ↦ err e ], c')
