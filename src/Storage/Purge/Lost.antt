-- ===== src/Storage/Purge/Lost.antt =====
-- The map is read and set in two steps, between which other functions of the walk run.
use container_registry.Prelude.{
  ℕ, ◌≤◌, ◌<◌, ◌==◌, Bool, true, false, ◌∷◌, [], Option, some, ◌≡◌, refl, sym, ap, arith,
}
use container_registry.Prelude.Bytes.{Bytes, codes, bytes_eq, bytes_beq_iff}
use container_registry.Prelude.Sets.{lookup, put}
use container_registry.Vacuum.{FilePath}
use container_registry.Storage.Purge.{
  Upload, Visit, Uploads, Gathered, new_gathered, file_name, is_reserved, uuid_from_path,
  begin_visit, Walk, walk_begun, walk_visits, walk_sets, old_dirs,
}

module _ (parse_uuid : Bytes → Option Bytes) (u : Bytes) where
  -- A file below the directory of the upload, under another name than `startedat`, or the directory.
  pub record IsOther (f : Visit) (is_dir : Bool) : Type 0 where
    pub plain : is_reserved f ≡ false
    pub named : uuid_from_path parse_uuid f.path ≡ some (u, is_dir)
    pub not_start : (file_name f == codes "startedat") ≡ false

  pub record IsStart (f : Visit) (time : ℕ) : Type 0 where
    pub plain : is_reserved f ≡ false
    pub named : uuid_from_path parse_uuid f.path ≡ some (u, false)
    pub start : (file_name f == codes "startedat") ≡ true
    pub read : f.started ≡ some time

  abbrev entry : FilePath → ℕ → Upload
  entry dir time = record { containing_dir = dir; started_at = time }

  abbrev state : Uploads → Uploads → Gathered
  state m p = record { members = m; pending = p; failed = 0 }

  same_key : (u == u) ≡ true
  same_key = (bytes_beq_iff u u).1 refl

  visit_dir :
      (d : Visit)
      → IsOther d true
      → begin_visit parse_uuid d new_gathered ≡ state [] ((u, entry d.path d.far) ∷ [])
  unfolding begin_visit lookup
  visit_dir d h = rw (h.plain, h.named, h.not_start) refl

  visit_other :
      (g : Visit) (x : Upload) (p : Uploads)
      → IsOther g false
      → begin_visit parse_uuid g (state ((u, x) ∷ []) p) ≡ state ((u, x) ∷ []) ((u, x) ∷ p)
  unfolding begin_visit lookup
  visit_other g x p h = rw (h.plain, h.named, h.not_start, same_key) refl

  visit_start :
      (f : Visit) (time : ℕ) (x : Upload) (p : Uploads)
      → IsStart f time
      → begin_visit parse_uuid f (state ((u, x) ∷ []) p)
        ≡ state ((u, x) ∷ []) ((u, entry x.containing_dir time) ∷ p)
  unfolding begin_visit lookup
  visit_start f time x p h = rw (h.plain, h.named, h.start, h.read, same_key) refl

  set_again : (x y : Upload) → put u y ((u, x) ∷ []) ≡ (u, y) ∷ []
  unfolding put
  set_again x y = rw same_key refl

  -- All three files are visited and all is set, and the map has the upload with a time.
  pub record IsWalked (d f g : Visit) (time : ℕ) (s : Gathered) : Type 0 where
    pub visited : Walk parse_uuid (f ∷ g ∷ d ∷ []) s
    pub all_set : s.pending ≡ []
    pub no_error : s.failed ≡ 0
    pub known : s.members ≡ (u, entry d.path time) ∷ []

  -- the visit of the directory and what it sets
  behind_dir :
      (d : Visit)
      → IsOther d true
      → Walk parse_uuid (d ∷ []) (state ((u, entry d.path d.far) ∷ []) [])
  unfolding put
  behind_dir d hd =
      walk_sets (walk_visits walk_begun d (sym (visit_dir d hd))) [] [] u (entry d.path d.far) refl
        refl

  lost_walk :
      (d f g : Visit) (time : ℕ)
      → IsOther d true
      → IsStart f time
      → IsOther g false
      → IsWalked d f g d.far (state ((u, entry d.path d.far) ∷ []) [])
  lost_walk d f g time hd hf hg =
      let x = entry d.path d.far in
      let y = entry d.path time in
      let r1 : Walk parse_uuid (g ∷ d ∷ []) (state ((u, x) ∷ []) ((u, x) ∷ [])) =
        walk_visits (behind_dir d hd) g (sym (visit_other g x [] hg)) in
      let r2 : Walk parse_uuid (f ∷ g ∷ d ∷ []) (state ((u, x) ∷ []) ((u, y) ∷ (u, x) ∷ [])) =
        walk_visits r1 f (sym (visit_start f time x ((u, x) ∷ []) hf)) in
      let r3 : Walk parse_uuid (f ∷ g ∷ d ∷ []) (state ((u, y) ∷ []) ((u, x) ∷ [])) =
        walk_sets r2 [] ((u, x) ∷ []) u y refl
          (ap (λ m. state m ((u, x) ∷ [])) (sym (set_again x y))) in
      record {
        visited = walk_sets r3 [] [] u x refl (ap (λ m. state m []) (sym (set_again y x)));
        all_set = refl;
        no_error = refl;
        known = refl;
      }

  kept_walk :
      (d f g : Visit) (time : ℕ)
      → IsOther d true
      → IsStart f time
      → IsOther g false
      → IsWalked d f g time (state ((u, entry d.path time) ∷ []) [])
  kept_walk d f g time hd hf hg =
      let x = entry d.path d.far in
      let y = entry d.path time in
      let r1 : Walk parse_uuid (g ∷ d ∷ []) (state ((u, x) ∷ []) []) =
        walk_sets (walk_visits (behind_dir d hd) g (sym (visit_other g x [] hg))) [] [] u x refl
          (ap (λ m. state m []) (sym (set_again x x))) in
      let r2 : Walk parse_uuid (f ∷ g ∷ d ∷ []) (state ((u, x) ∷ []) ((u, y) ∷ [])) =
        walk_visits r1 f (sym (visit_start f time x [] hf)) in
      record {
        visited = walk_sets r2 [] [] u y refl (ap (λ m. state m []) (sym (set_again x y)));
        all_set = refl;
        no_error = refl;
        known = refl;
      }

  -- A walk that visits an upload's directory, another file of the upload and its file `startedat`, each
  -- once, can end with all set in two ways, if the time that is read is before the limit and the limit
  -- is not later than ten thousand hours behind the visit of the directory. In one the map has the
  -- upload with the time that was read, and its directory is to be purged; in the other it has the
  -- upload with the time far ahead, the time that was read is lost, and nothing is to be purged.
  pub start_lost :
      (d f g : Visit) (time older_than : ℕ)
      → IsOther d true
      → IsStart f time
      → IsOther g false
      → time < older_than
      → older_than ≤ d.far
      → ((kept : Gathered) × IsWalked d f g time kept
          × (old_dirs older_than kept.members ≡ d.path ∷ []))
        × ((lost : Gathered) × IsWalked d f g d.far lost × (old_dirs older_than lost.members ≡ []))
  unfolding old_dirs
  start_lost d f g time older_than hd hf hg early far = (
    (state ((u, entry d.path time) ∷ []) [], kept_walk d f g time hd hf hg, ground (arith, early)),
    (state ((u, entry d.path d.far) ∷ []) [], lost_walk d f g time hd hf hg, ground (arith, far)),
  )
