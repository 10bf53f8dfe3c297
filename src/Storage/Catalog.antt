-- ===== src/Storage/Catalog.antt =====
-- registry/storage/catalog.go: the pages of the catalogue of repositories, and from driver/walk.go the
-- walk over the directories, whose entries are given in the order in which they are sorted there.
pub mod Ordered
pub mod Paged
use container_registry.Prelude.{
  ℕ, suc, ◌+◌, ◌==◌, ltb, Bool, true, false, not, if◌then◌else◌, List, ◌∷◌, [], ◌++◌, Option, some,
  none, length, take, drop, ◌≡◌, nat_eq,
}
use container_registry.Prelude.Bytes.{Bytes, codes, bytes_eq, is_prefix}
use container_registry.Vacuum.{FilePath}
use container_registry.Storage.Join.{path_split}

-- the byte that is compared: a separator sorts first
abbrev pub replace_separator : ℕ → ℕ
replace_separator c = if c == b'/' then 0 else c

pub data Compared : Type 0 where
  below same above : Compared

-- `compareReplaceInline` of the two texts, with the separator replaced
unfoldable pub compare_replace : Bytes → Bytes → Compared
compare_replace [] [] = same
compare_replace [] (d ∷ t) = below
compare_replace (c ∷ s) [] = above
compare_replace (c ∷ s) (d ∷ t) =
    let rest = compare_replace s t in
    if ltb (replace_separator c) (replace_separator d)
    then below
    else if ltb (replace_separator d) (replace_separator c)
    then above
    else rest

abbrev pub is_below_result : Compared → Bool
is_below_result below = true
is_below_result same = false
is_below_result above = false

-- `lessPath`
unfoldable pub less_path : Bytes → Bytes → Bool
unfolding compare_replace
less_path a b = is_below_result (compare_replace a b)

-- `strings.TrimSuffix(repo, "/_layers")`
unfoldable pub trim_layers : Bytes → Bytes
trim_layers [] = []
trim_layers (c ∷ s) =
    let rest = trim_layers s in if (c ∷ s) == codes "/_layers" then [] else c ∷ rest

-- `handleRepository`: the repository that the function is called with, and whether the directory is
-- skipped
abbrev pub found_layers : Bytes → Bytes → List Bytes
found_layers last repo = if less_path last repo then repo ∷ [] else []

unfoldable pub handle_repository : FilePath → Bytes → FilePath → List Bytes × Bool
unfolding trim_layers less_path path_split is_prefix
handle_repository root last path =
    let repo = drop (length root + 1) path in
    let file = (path_split repo).1 in
    if file == codes "_layers"
    then (found_layers last (trim_layers repo), true)
    else ([], is_prefix (codes "_") file)

pub record Page : Type 0 where
  pub found : List Bytes
  pub finished : Bool

abbrev pub after_handling : ℕ → List Bytes × Bool → Page → Page × Bool
after_handling n (repos, true) page = (record page { found = page.found ++ repos }, true)
after_handling n (repos, false) page =
    if length (page.found ++ repos) == n
    then (record { found = page.found ++ repos; finished = true }, true)
    else (record page { found = page.found ++ repos }, false)

-- Directories and files with their names, as the driver lists them.
mutual
  pub data Entry : Type 0 where
    directory : Bytes → Entries → Entry
    regular : Bytes → Entry

  pub data Entries : Type 0 where
    no_more : Entries
    more : Entry → Entries → Entries

-- `WalkFallback` with the function of `Repositories`: whether the rest of the directory is left out
unfoldable mutual
  unfolding handle_repository

  pub walk_entry : ℕ → FilePath → Bytes → FilePath → Entry → Page → Page × Bool
  walk_entry n root last dir (directory name entries) page =
      let path = dir ++ b'/' ∷ name in
      let (page', skip) = after_handling n (handle_repository root last path) page in
      let inside = walk_entries n root last path entries page' in
      (if skip then page' else inside, false)
  walk_entry n root last dir (regular name) page =
      after_handling n (handle_repository root last (dir ++ b'/' ∷ name)) page

  pub walk_entries : ℕ → FilePath → Bytes → FilePath → Entries → Page → Page
  walk_entries n root last dir no_more page = page
  walk_entries n root last dir (more entry entries) page =
      let (page', stop) = walk_entry n root last dir entry page in
      let rest = walk_entries n root last dir entries page' in if stop then page' else rest

-- `Repositories`: the repositories that are copied, and whether it answers `io.EOF`; none without space
-- in the slice
unfoldable pub repositories : ℕ → FilePath → Bytes → Entries → Option (List Bytes × Bool)
repositories n root last entries =
    let page = walk_entries n root last root entries (record { found = []; finished = false }) in
    if n == 0 then none else some (take n page.found, not page.finished)
