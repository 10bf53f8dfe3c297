-- ===== src/Storage/Driver.antt =====
-- registry/storage/driver/storagedriver.go: what the stores use of a storage driver.
use container_registry.Prelude.{
  ℕ, ◌==◌, Bool, true, false, ◌||◌, Result, ok, err, List, ◌∷◌, [], ◌++◌, Option, some, none, ◌≡◌,
  ◌≢◌, length,
}
use container_registry.Prelude.Bytes.{Bytes, bytes_eq, is_prefix}
use container_registry.Vacuum.{FilePath}

-- `PathNotFoundError`, or another error.
pub data Fault : Type 0 where
  path_not_found other_fault : Fault

pub record FileInfo : Type 0 where
  pub is_dir : Bool
  pub size : ℕ

-- A path or one of its subpaths.
abbrev pub is_below : FilePath → FilePath → Bool
is_below root path = root == path || is_prefix (root ++ b'/' ∷ []) path

-- What is documented of the calls. Content that was put is got back and measured, and no other file
-- changes; deleting takes a path with its subpaths away and changes no other, and a path that is
-- not found has no content.
pub record Driver : Type 1 where
  pub Disk : Type 0
  pub get_content : FilePath → Disk → Result Fault Bytes
  pub stat : FilePath → Disk → Result Fault FileInfo
  pub list : FilePath → Disk → Result Fault (List FilePath)
  pub put_content : FilePath → Bytes → Disk → Option Fault × Disk
  pub delete : FilePath → Disk → Option Fault × Disk
  pub get-put :
      (p : FilePath) (c : Bytes) (s : Disk)
      → (put_content p c s).0 ≡ none
      → get_content p (put_content p c s).1 ≡ ok c
  pub get-put_other :
      (p q : FilePath) (c : Bytes) (s : Disk)
      → (put_content p c s).0 ≡ none
      → q ≢ p
      → get_content q (put_content p c s).1 ≡ get_content q s
  pub stat-put :
      (p : FilePath) (c : Bytes) (s : Disk)
      → (put_content p c s).0 ≡ none
      → stat p (put_content p c s).1 ≡ ok (record { is_dir = false; size = length c })
  pub stat-put_other :
      (p q : FilePath) (c : Bytes) (s : Disk)
      → (put_content p c s).0 ≡ none
      → is_below q p ≡ false
      → stat q (put_content p c s).1 ≡ stat q s
  pub get-delete :
      (p q : FilePath) (s : Disk)
      → (delete p s).0 ≡ none
      → is_below p q ≡ true
      → get_content q (delete p s).1 ≡ err path_not_found
  pub get-delete_other :
      (p q : FilePath) (s : Disk)
      → (delete p s).0 ≡ none
      → is_below p q ≡ false
      → get_content q (delete p s).1 ≡ get_content q s
  pub delete-absent :
      (p : FilePath) (s : Disk)
      → (delete p s).0 ≡ some path_not_found
      → ((delete p s).1 ≡ s) × (get_content p s ≡ err path_not_found)
