-- ===== src/Storage/Join.antt =====
-- The functions of Go's package `path` that registry/storage/paths.go calls, on texts.
pub mod Laws
pub mod Parted
use container_registry.Prelude.{
  ℕ, ◌==◌, Bool, true, false, ◌||◌, if◌then◌else◌, List, [], ◌∷◌, ◌++◌, nat_eq,
}
use container_registry.Prelude.Bytes.{Bytes, codes, bytes_eq}

abbrev pub push : ℕ → List Bytes → List Bytes
push c [] = (c ∷ []) ∷ []
push c (s ∷ ss) = (c ∷ s) ∷ ss

-- What stands between the slashes of a text, empty texts included.
unfoldable pub split : Bytes → List Bytes
split [] = [] ∷ []
split (c ∷ s) = let rest = split s in if c == b'/' then [] ∷ rest else push c rest

abbrev pub dot : Bytes
dot = codes "."

abbrev pub dots : Bytes
dots = codes ".."

abbrev pub keep : List Bytes → List Bytes
keep [] = []
keep (c ∷ cs) = let rest = keep cs in if c == [] || c == dot then rest else c ∷ rest

-- The elements of a path, but for those that `Clean` drops in any place.
unfoldable pub parts : Bytes → List Bytes
unfolding split
parts s = keep (split s)

-- One step up; at the root of a rooted path there is none.
abbrev pub up : Bool → List Bytes → List Bytes
up rooted [] = if rooted then [] else dots ∷ []
up rooted (c ∷ []) = if c == dots then c ∷ dots ∷ [] else []
up rooted (c ∷ d ∷ cs) = c ∷ up rooted (d ∷ cs)

abbrev pub enter : Bool → List Bytes → Bytes → List Bytes
enter rooted cs c = if c == dots then up rooted cs else cs ++ c ∷ []

unfoldable pub resolve : Bool → List Bytes → List Bytes → List Bytes
resolve rooted cs [] = cs
resolve rooted cs (d ∷ ds) = resolve rooted (enter rooted cs d) ds

abbrev pub is_rooted : Bytes → Bool
is_rooted [] = false
is_rooted (c ∷ s) = c == b'/'

unfoldable pub join_slash : List Bytes → Bytes
join_slash [] = []
join_slash (c ∷ []) = c
join_slash (c ∷ d ∷ cs) = c ++ b'/' ∷ join_slash (d ∷ cs)

abbrev pub or_dot : Bytes → Bytes
or_dot [] = dot
or_dot (c ∷ s) = c ∷ s

-- `path.Clean`
unfoldable pub clean : Bytes → Bytes
unfolding parts resolve join_slash
clean p =
    let text = join_slash (resolve (is_rooted p) [] (parts p)) in
    if is_rooted p then b'/' ∷ text else or_dot text

abbrev pub nonempty : List Bytes → List Bytes
nonempty [] = []
nonempty (s ∷ ss) = let rest = nonempty ss in if s == [] then rest else s ∷ rest

-- `path.Join`
unfoldable pub path_join : List Bytes → Bytes
unfolding clean join_slash
path_join ss = let p = join_slash (nonempty ss) in if p == [] then [] else clean p

abbrev pub before : ℕ → Bytes × Bytes → Bytes × Bytes
before c ([], file) = if c == b'/' then (c ∷ [], file) else ([], c ∷ file)
before c (d ∷ dir, file) = (c ∷ d ∷ dir, file)

-- `path.Split`: the text up to its last slash, with it, and the text behind.
unfoldable pub path_split : Bytes → Bytes × Bytes
path_split [] = ([], [])
path_split (c ∷ s) = before c (path_split s)

-- `path.Dir`
unfoldable pub path_dir : Bytes → Bytes
unfolding path_split clean
path_dir p = clean (path_split p).0

abbrev pub all_slashes : Bytes → Bool
all_slashes [] = true
all_slashes (c ∷ s) = let rest = all_slashes s in if c == b'/' then rest else false

-- without the slashes at the end
abbrev pub trim_slashes : Bytes → Bytes
trim_slashes [] = []
trim_slashes (c ∷ s) = let rest = trim_slashes s in if all_slashes (c ∷ s) then [] else c ∷ rest

abbrev pub base_of : Bytes → Bytes → Bytes
base_of [] p = dot
base_of (c ∷ s) [] = b'/' ∷ []
base_of (c ∷ s) (d ∷ p) = (path_split (d ∷ p)).1

-- `path.Base`
unfoldable pub path_base : Bytes → Bytes
unfolding path_split
path_base p = base_of p (trim_slashes p)
