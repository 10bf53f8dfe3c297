-- ===== src/Storage/Removal.antt =====
-- registry/storage/vacuum.go and catalog.go: the removal of a repository with all that lies below it,
-- other repositories included.
use container_registry.Prelude.{◌∷◌, []}
use container_registry.Prelude.Bytes.{Bytes}
use container_registry.Vacuum.{DigestText, FilePath}
use container_registry.Storage.Join.{path_join}
use container_registry.Storage.Paths.{path_for, repositories_root}
use container_registry.Storage.Driver.{Driver}
use container_registry.Storage.Stores.{Written, at_path, fault_of}

module _ (t : DigestText) (v : Driver) where
  abbrev pub delete_repository : Bytes → FilePath → v.Disk → Written v.Disk
  delete_repository name root s =
      let (e, s') = v.delete (path_join (root ∷ name ∷ [])) s in (fault_of e, s')

  -- `Vacuum.RemoveRepository`
  unfoldable pub remove_repository : Bytes → v.Disk → Written v.Disk
  remove_repository name s = at_path (path_for t repositories_root) (delete_repository name) s

  -- `registry.Remove`
  unfoldable pub remove_named : Bytes → v.Disk → Written v.Disk
  remove_named name s = at_path (path_for t repositories_root) (delete_repository name) s
