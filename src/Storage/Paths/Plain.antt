-- ===== src/Storage/Paths/Plain.antt =====
-- Which elements the path of a specification has, where its names are proper.
use container_registry.Prelude.{
  ◌==◌, Bool, true, false, not, ◌&&◌, List, [], ◌∷◌, ◌++◌, nat_eq, ◌≡◌, ◌≢◌, refl, ap, ◌∙◌, All,
  All-append, append_assoc, arith,
}
use container_registry.Prelude.Bytes.{
  Bytes, codes, bytes_eq, bytes_beq_iff, Lacks, lacks, lacks-Lacks,
}
use container_registry.Storage.Join.{dot, dots, parts, join_slash, path_join, split}
use container_registry.Storage.Join.Laws.{
  IsElement, parts_all, parts_all-elements, parts-render, path_join-rooted, render,
  elements-no_dots,
}
use container_registry.Storage.Paths.{root_prefix, repo_prefix}

-- The name of a repository: elements with slashes between them, none of which begins with `_`.
abbrev pub begins_low : Bytes → Bool
begins_low [] = false
begins_low (c ∷ s) = c == b'_'

pub record IsName (name : Bytes) : Type 0 where
  pub joined : join_slash (parts name) ≡ name
  pub elements : All IsElement (parts name)
  pub named : parts name ≢ []
  pub high : All (λ c. begins_low c ≡ false) (parts name)

abbrev pub is_element : Bytes → Bool
is_element c = lacks b'/' c && not (c == []) && not (c == dot) && not (c == dots)

pub is_element-IsElement : (c : Bytes) → is_element c ≡ true → IsElement c
is_element-IsElement c e = (
  lacks-Lacks b'/' c (ground (arith, e)),
  ground (arith, e, bytes_beq_iff c []),
  ground (arith, e, bytes_beq_iff c dot),
  ground (arith, e, bytes_beq_iff c dots),
)

pub dotless-IsElement : (c : Bytes) → Lacks b'/' c → Lacks b'.' c → c ≢ [] → IsElement c
dotless-IsElement c s l n = (s, n, (λ e. (subst_lacks e l).0 refl), (λ e. (subst_lacks e l).0 refl))
  where
    subst_lacks : {a b : Bytes} → a ≡ b → Lacks b'.' a → Lacks b'.' b
    subst_lacks e l = rw e at l

abbrev pub storage : List Bytes → List Bytes
storage cs = codes "docker" ∷ codes "registry" ∷ codes "v2" ∷ cs

abbrev pub repo : Bytes → List Bytes → List Bytes
repo name cs = storage (codes "repositories" ∷ (parts name ++ cs))

literal : (s : Bytes) → is_element s ≡ true → IsElement s
literal = is_element-IsElement

pub storage-elements : (cs : List Bytes) → All IsElement cs → All IsElement (storage cs)
storage-elements cs h = (
  literal (codes "docker") refl,
  (literal (codes "registry") refl, (literal (codes "v2") refl, h)),
)

pub repo-elements :
    (name : Bytes) (cs : List Bytes) → IsName name → All IsElement cs → All IsElement (repo name cs)
repo-elements name cs n h =
    storage-elements (codes "repositories" ∷ (parts name ++ cs))
      (literal (codes "repositories") refl, All-append IsElement (parts name) cs n.elements h)

-- Joining behind a rooted path of elements.
pub join-behind :
    (cs ss : List Bytes)
    → All IsElement cs
    → All IsElement (parts_all ss)
    → path_join (render cs ∷ ss) ≡ render (cs ++ parts_all ss)
unfolding parts_all
join-behind cs ss hc hs =
    let same : parts_all (render cs ∷ ss) ≡ cs ++ parts_all ss = rw (parts-render cs hc) refl in
    path_join-rooted (join_slash cs) ss (
      rw same
        (elements-no_dots (cs ++ parts_all ss) (All-append IsElement cs (parts_all ss) hc hs)))
    ∙ ap render same

join-prefix_parts :
    (ss : List Bytes)
    → All IsElement (parts_all ss)
    → path_join (root_prefix ++ ss) ≡ render (storage (parts_all ss))
unfolding parts_all parts split
join-prefix_parts ss h =
    path_join-rooted (codes "docker/registry/") (codes "v2" ∷ ss)
      (elements-no_dots (storage (parts_all ss)) (storage-elements (parts_all ss) h))

join-repo_parts :
    (name : Bytes) (ss : List Bytes)
    → IsName name
    → All IsElement (parts_all ss)
    → path_join (repo_prefix ++ name ∷ ss) ≡ render (repo name (parts_all ss))
unfolding parts_all parts split
join-repo_parts name ss n h =
    path_join-rooted (codes "docker/registry/") (codes "v2" ∷ codes "repositories" ∷ name ∷ ss)
      (elements-no_dots (repo name (parts_all ss)) (repo-elements name (parts_all ss) n h))

pub join-prefix :
    (ss : List Bytes) → All IsElement ss → path_join (root_prefix ++ ss) ≡ render (storage ss)
join-prefix ss h =
    let same = parts_all-elements ss h in
    join-prefix_parts ss (rw same h) ∙ ap (λ cs. render (storage cs)) same

pub join-repo :
    (name : Bytes) (ss : List Bytes)
    → IsName name
    → All IsElement ss
    → path_join (repo_prefix ++ name ∷ ss) ≡ render (repo name ss)
join-repo name ss n h =
    let same = parts_all-elements ss h in
    join-repo_parts name ss n (rw same h) ∙ ap (λ cs. render (repo name cs)) same

-- Joining elements behind the path of a repository's directory.
pub join-in_repo :
    (name : Bytes) (cs ss : List Bytes)
    → IsName name
    → All IsElement cs
    → All IsElement ss
    → path_join (render (repo name cs) ∷ ss) ≡ render (repo name (cs ++ ss))
join-in_repo name cs ss n hc hs =
    let same = parts_all-elements ss hs in
    join-behind (repo name cs) ss (repo-elements name cs n hc) (rw same hs)
    ∙ rw (same, append_assoc (parts name) cs ss) refl
