-- ===== src/Tests/Catalog.antt =====
-- A catalogue of the repositories a/1 and a.
use container_registry.Prelude.{Bool, true, ◌∷◌, [], some, take, ◌≡◌, refl, arith}
use container_registry.Prelude.Bytes.{codes, is_prefix}
use container_registry.Vacuum.{FilePath}
use container_registry.Storage.Join.{split, path_split}
use container_registry.Storage.Catalog.{
  compare_replace, less_path, trim_layers, handle_repository, Entries, directory, no_more, more,
  walk_entry, repositories,
}
use container_registry.Storage.Catalog.Ordered.{less_elements, less_path-elements}
use container_registry.Storage.Catalog.Paged.{behind, all_below, repositories-all}

abbrev root : FilePath
root = codes "/r"

abbrev layers : Entries
layers = more (directory (codes "_layers") no_more) no_more

abbrev tree : Entries
tree = more (directory (codes "a") (more (directory (codes "1") layers) layers)) no_more

less_path-elements_example :
    less_path (codes "a/z") (codes "a-b")
    ≡ less_elements (split (codes "a/z")) (split (codes "a-b"))
less_path-elements_example =
    less_path-elements (codes "a/z") (codes "a-b") (omega arith) (omega arith)

repositories-all_example :
    (eof : Bool) × (repositories 1 root [] tree
      ≡ some (take 1 (behind [] (all_below root root tree)), eof))
repositories-all_example = repositories-all root 1 [] tree refl

-- The answer is the end of the catalogue although `a` was not among what was copied.
ends_early : repositories 1 root [] tree ≡ some (codes "a/1" ∷ [], true)
unfolding repositories walk_entry handle_repository trim_layers less_path compare_replace path_split
    is_prefix
ends_early = refl

-- A next page would not have it either.
second_page : repositories 1 root (codes "a/1") tree ≡ some ([], true)
unfolding repositories walk_entry handle_repository trim_layers less_path compare_replace path_split
    is_prefix
second_page = refl
