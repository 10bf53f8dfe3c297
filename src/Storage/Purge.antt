-- ===== src/Storage/Purge.antt =====
-- registry/storage/purgeuploads.go: which uploads are found to be old, and their deletion. The walk is
-- parallel: the function of one file reads the map of uploads in one step and sets it in another.
pub mod Named
pub mod Safe
pub mod Lost
use container_registry.Prelude.{
  ℕ, suc, ◌+◌, ◌==◌, ltb, Bool, true, false, not, ◌&&◌, if◌then◌else◌, List, ◌∷◌, [], ◌++◌, Option,
  some, none, ◌≡◌, In,
}
use container_registry.Prelude.Bytes.{Bytes, codes, bytes_eq, is_prefix}
use container_registry.Prelude.Sets.{lookup, put}
use container_registry.Vacuum.{FilePath}
use container_registry.Storage.Join.{split, path_split}
use container_registry.Storage.Driver.{Fault, Driver}

-- `uploadData`
pub record Upload : Type 0 where
  pub containing_dir : FilePath
  pub started_at : ℕ

-- A file of the walk: what `readStartedAtFile` gives for it, if it gives a time, and ten thousand hours
-- behind the time of the visit.
pub record Visit : Type 0 where
  pub path : FilePath
  pub is_dir : Bool
  pub started : Option ℕ
  pub far : ℕ

abbrev pub Uploads : Type 0
Uploads = List (Bytes × Upload)

-- The map, what functions under way are to set, and the number of errors.
pub record Gathered : Type 0 where
  pub members : Uploads
  pub pending : Uploads
  pub failed : ℕ

abbrev pub new_gathered : Gathered
new_gathered = record { members = []; pending = []; failed = 0 }

-- `newUploadData`, unless `get` finds the upload
abbrev pub or_far : ℕ → Option Upload → Upload
or_far far none = record { containing_dir = []; started_at = far }
or_far far (some ud) = ud

abbrev pub file_name : Visit → Bytes
file_name f = (path_split f.path).1

abbrev pub is_reserved : Visit → Bool
is_reserved f =
    is_prefix (codes "_") (file_name f) && f.is_dir && not (file_name f == codes "_uploads")

abbrev pub note_dir : Bool → Visit → Upload → Upload
note_dir containing f ud = if containing then record ud { containing_dir = f.path } else ud

abbrev pub started_or : Option ℕ → Upload → Upload
started_or none ud = ud
started_or (some time) ud = record ud { started_at = time }

abbrev pub note_start : Visit → Upload → Upload
note_start f ud = if file_name f == codes "startedat" then started_or f.started ud else ud

abbrev pub unreadable : Option ℕ → ℕ
unreadable none = 1
unreadable (some time) = 0

abbrev pub errors_of : Visit → ℕ
errors_of f = if file_name f == codes "startedat" then unreadable f.started else 0

-- `parse_uuid` is `uuid.Parse` with the text of what it returns.
module _ (parse_uuid : Bytes → Option Bytes) where
  abbrev pub is_last : List Bytes → Bool
  is_last [] = true
  is_last (c ∷ cs) = false

  abbrev pub or_here : Option (Bytes × Bool) → Option Bytes → Bool → Option (Bytes × Bool)
  or_here (some found) here last = some found
  or_here none none last = none
  or_here none (some u) last = some (u, last)

  unfoldable pub uuid_in : List Bytes → Option (Bytes × Bool)
  uuid_in [] = none
  uuid_in (c ∷ cs) = or_here (uuid_in cs) (parse_uuid c) (is_last cs)

  -- `uuidFromPath`: the last element that is a UUID, and whether it is the last of all
  unfoldable pub uuid_from_path : FilePath → Option (Bytes × Bool)
  unfolding uuid_in
  uuid_from_path path = uuid_in (split path)

  -- the function of the walk up to `set`
  abbrev pub begin_with : Option (Bytes × Bool) → Visit → Gathered → Gathered
  begin_with none f s = s
  begin_with (some (u, containing)) f s = record {
    members = s.members;
    pending =
        (u, note_start f (note_dir containing f (or_far f.far (lookup u s.members)))) ∷ s.pending;
    failed = s.failed + errors_of f;
  }

  unfoldable pub begin_visit : Visit → Gathered → Gathered
  begin_visit f s = if is_reserved f then s else begin_with (uuid_from_path f.path) f s

  -- `set`
  abbrev pub set_upload : Uploads → Bytes → Upload → Uploads → Gathered → Gathered
  set_upload before u ud after s = record {
    members = put u ud s.members;
    pending = before ++ after;
    failed = s.failed;
  }

  -- What may happen next in a walk over some files.
  pub data Step (fs : List Visit) (s t : Gathered) : Type 0 where
    visits : (f : Visit) → In f fs → t ≡ begin_visit f s → Step fs s t
    sets :
        (before after : Uploads)
        → (u : Bytes) → (ud : Upload) → s.pending ≡ before ++ (u, ud) ∷ after
        → t ≡ set_upload before u ud after s
        → Step fs s t

  pub data Reach (fs : List Visit) : Gathered → Type 0 where
    at_start : Reach fs new_gathered
    next_step : {s t : Gathered} → Reach fs s → Step fs s t → Reach fs t

  -- The same steps with the files that were visited, the last one first: a walk over some files
  -- visits each once.
  pub data Walk : List Visit → Gathered → Type 0 where
    walk_begun : Walk [] new_gathered
    walk_visits :
        {fs : List Visit} {s t : Gathered}
        → Walk fs s
        → (f : Visit) → t ≡ begin_visit f s
        → Walk (f ∷ fs) t
    walk_sets :
        {fs : List Visit} {s t : Gathered}
        → Walk fs s
        → (before after : Uploads) → (u : Bytes) → (ud : Upload)
        → s.pending ≡ before ++ (u, ud) ∷ after
        → t ≡ set_upload before u ud after s
        → Walk fs t

-- the test of the loop in `PurgeUploads`
unfoldable pub old_dirs : ℕ → Uploads → List FilePath
old_dirs older_than [] = []
old_dirs older_than ((u, ud) ∷ uploads) =
    let rest = old_dirs older_than uploads in
    if ltb ud.started_at older_than then ud.containing_dir ∷ rest else rest

module _ (v : Driver) (actually_delete : Bool) where
  pub record Purged : Type 0 where
    pub deleted : List FilePath
    pub errors : ℕ
    pub disk : v.Disk

  abbrev pub count : FilePath → Option Fault → Purged → Purged
  count dir none r = record r { deleted = dir ∷ r.deleted }
  count dir (some e) r = record r { errors = suc r.errors }

  -- the body of the loop
  unfoldable pub purge_dirs : List FilePath → v.Disk → Purged
  purge_dirs [] s = record { deleted = []; errors = 0; disk = s }
  purge_dirs (dir ∷ dirs) s =
      let (e, s') = if actually_delete then v.delete dir s else (none, s) in
      count dir e (purge_dirs dirs s')

  -- `PurgeUploads` behind the walk, which may have ended with an error of its own
  unfoldable pub purge_uploads : ℕ → Gathered → Bool → v.Disk → Purged
  unfolding purge_dirs old_dirs
  purge_uploads older_than g walk_failed s =
      let r = purge_dirs (old_dirs older_than g.members) s in
      let walk_errors = if walk_failed then 1 else 0 in
      record r { errors = g.failed + walk_errors + r.errors }
