-- ===== src/Tests/Purge.antt =====
-- A walk over the files of one upload.
use container_registry.Prelude.{
  ℕ, ◌==◌, ◌≤◌, ◌<◌, true, false, if◌then◌else◌, List, ◌∷◌, [], Option, some, none, ◌≡◌, refl, In,
  here, there, In-cons, inl, inr, ◌⊎◌, arith,
}
use container_registry.Prelude.Bytes.{Bytes, codes, bytes_eq, is_prefix}
use container_registry.Prelude.Sets.{lookup, put}
use container_registry.Storage.Join.{split, path_split}
use container_registry.Storage.Purge.{
  Upload, Visit, Gathered, begin_visit, uuid_from_path, uuid_in, Reach, at_start, next_step, visits,
  sets, old_dirs,
}
use container_registry.Storage.Purge.Safe.{IsStarted, IsUploadDir, old_dirs-IsStarted}
use container_registry.Storage.Purge.Lost.{IsOther, IsStart, IsWalked, start_lost}

-- Only `u1` counts as a UUID.
abbrev uuid : Bytes → Option Bytes
uuid c = if c == codes "u1" then some c else none

abbrev dir : Visit
dir = record { path = codes "/r/_uploads/u1"; is_dir = true; started = none; far = 1000 }

abbrev start_file : Visit
start_file = record {
  path = codes "/r/_uploads/u1/startedat";
  is_dir = false;
  started = some 5;
  far = 1000;
}

abbrev data_file : Visit
data_file = record {
  path = codes "/r/_uploads/u1/data";
  is_dir = false;
  started = none;
  far = 1000;
}

abbrev walk : List Visit
walk = dir ∷ start_file ∷ []

abbrev known_upload : Upload
known_upload = record { containing_dir = codes "/r/_uploads/u1"; started_at = 5 }

abbrev new_upload : Upload
new_upload = record { containing_dir = codes "/r/_uploads/u1"; started_at = 1000 }

abbrev ended : Gathered
ended = record { members = (codes "u1", known_upload) ∷ []; pending = []; failed = 0 }

walked : Reach uuid walk ended
unfolding begin_visit uuid_from_path uuid_in split path_split is_prefix lookup put
walked =
    next_step
      (next_step
        (next_step (next_step at_start (visits dir here refl))
          (sets [] [] (codes "u1") new_upload refl refl))
        (visits start_file (there here) refl))
      (sets [] [] (codes "u1") known_upload refl refl)

far_ahead : (f : Visit) → In f walk → 10 ≤ f.far
far_ahead f i = elim (In-cons i) [
  | inl e ↦ rw e (omega arith)
  | inr j ↦ elim (In-cons j) [ inl e ↦ rw e (omega arith) | inr k ↦ elim k [ ] ]
]

in_old : In (codes "/r/_uploads/u1") (old_dirs 10 ended.members)
unfolding old_dirs
in_old = here

old_dirs-IsStarted_example :
    (u : Bytes) × (time : ℕ) × IsStarted uuid walk u time
    × (time < 10)
    × ((codes "/r/_uploads/u1" ≡ []) ⊎ IsUploadDir uuid walk u (codes "/r/_uploads/u1"))
old_dirs-IsStarted_example =
    old_dirs-IsStarted uuid walk ended 10 (codes "/r/_uploads/u1") walked far_ahead in_old

dir-IsOther : IsOther uuid (codes "u1") dir true
unfolding uuid_from_path uuid_in split path_split is_prefix
dir-IsOther = record { plain = refl; named = refl; not_start = refl }

data-IsOther : IsOther uuid (codes "u1") data_file false
unfolding uuid_from_path uuid_in split path_split is_prefix
data-IsOther = record { plain = refl; named = refl; not_start = refl }

file-IsStart : IsStart uuid (codes "u1") start_file 5
unfolding uuid_from_path uuid_in split path_split is_prefix
file-IsStart = record { plain = refl; named = refl; start = refl; read = refl }

start_lost_example :
    ((kept : Gathered) × IsWalked uuid (codes "u1") dir start_file data_file 5 kept
      × (old_dirs 10 kept.members ≡ codes "/r/_uploads/u1" ∷ []))
    × ((lost : Gathered) × IsWalked uuid (codes "u1") dir start_file data_file 1000 lost
        × (old_dirs 10 lost.members ≡ []))
start_lost_example =
    start_lost uuid (codes "u1") dir start_file data_file 5 10 dir-IsOther file-IsStart data-IsOther
      (omega arith) (omega arith)
