-- ===== src/Storage/Purge/Safe.antt =====
-- Which uploads a purge deletes, however the functions of the walk interleave.
use container_registry.Prelude.{
  In-append_left, ℕ, ◌==◌, ◌≤◌, ◌<◌, ltb, Bool, true, false, List, ◌∷◌, [], ◌++◌, Option, some,
  none, ◌≡◌, refl, sym, subst, In, here, there, In-cons, In-append, ◌⊎◌, inl, inr, Bool-cases,
  Option-cases, arith,
}
use container_registry.Prelude.Bytes.{Bytes, codes, bytes_eq, bytes_beq_iff}
use container_registry.Prelude.Sets.{lookup, In-put}
use container_registry.Vacuum.{FilePath}
use container_registry.Storage.Join.{split}
use container_registry.Storage.Purge.Named.{
  IsLastUuid, uuid_from_path-IsLastUuid, uuid_from_path-true,
}
use container_registry.Storage.Purge.{
  Upload, Visit, Uploads, Gathered, or_far, file_name, is_reserved, note_dir, started_or,
  note_start, uuid_from_path, begin_with, begin_visit, Step, visits, sets, Reach, at_start,
  next_step, old_dirs,
}

same_entry : {u w : Bytes} {x ud : Upload} {m : Uploads} → w ≡ u → x ≡ ud → In (u, ud) ((w, x) ∷ m)
same_entry {u} {w} {x} {ud} {m} keys values =
    subst (λ (q : Bytes × Upload). In (u, ud) (q ∷ m)) (sym (cc (keys, values))) here

In-lookup : (u : Bytes) (m : Uploads) {ud : Upload} → lookup u m ≡ some ud → In (u, ud) m
unfolding lookup
In-lookup u [] h = cc h
In-lookup u ((w, x) ∷ m) {ud} h = elim (Bool-cases (w == u)) [
  | inl same ↦ let values : x ≡ ud = cc (h, same) in same_entry ((bytes_beq_iff w u).0 same) values
  | inr other ↦ there (In-lookup u m (rw other at h))
]

In-right : {a : Bytes × Upload} (xs : Uploads) {ys : Uploads} → In a ys → In a (xs ++ ys)
In-right [] i = i
In-right (x ∷ xs) i = there (In-right xs i)

module _ (parse_uuid : Bytes → Option Bytes) (fs : List Visit) where
  -- A path of the walk whose last element is the upload's UUID.
  pub record IsUploadDir (u : Bytes) (dir : FilePath) : Type 0 where
    pub visit : Visit
    pub among : In visit fs
    pub path : visit.path ≡ dir
    pub named : IsLastUuid parse_uuid u (split dir) []

  -- A file of the walk that tells when the upload was started: the last element of its path that is a
  -- UUID is the upload's.
  pub record IsStarted (u : Bytes) (time : ℕ) : Type 0 where
    pub visit : Visit
    pub among : In visit fs
    pub file : file_name visit ≡ codes "startedat"
    pub read : visit.started ≡ some time
    pub after : List Bytes
    pub named : IsLastUuid parse_uuid u (split visit.path) after

  -- The directory is not known yet or one of the upload, and the time is read or far ahead.
  abbrev pub IsTrue : Bytes → Upload → Type 0
  IsTrue u ud =
      ((ud.containing_dir ≡ []) ⊎ IsUploadDir u ud.containing_dir)
      × (((f : Visit) × In f fs × (ud.started_at ≡ f.far)) ⊎ IsStarted u ud.started_at)

  abbrev AllTrue : Uploads → Type 0
  AllTrue m = (u : Bytes) → (ud : Upload) → In (u, ud) m → IsTrue u ud

  or_far-IsTrue :
      (f : Visit) (u : Bytes) (m : Uploads)
      → In f fs
      → AllTrue m
      → IsTrue u (or_far f.far (lookup u m))
  or_far-IsTrue f u m i h = elim (Option-cases (lookup u m)) [
    | inl e ↦ rw e (inl refl, inl (f, i, refl))
    | inr (ud, e) ↦ rw e (h u ud (In-lookup u m e))
  ]

  note_dir-IsTrue :
      (f : Visit) (u : Bytes) (containing : Bool) (ud : Upload)
      → In f fs
      → uuid_from_path parse_uuid f.path ≡ some (u, containing)
      → IsTrue u ud
      → IsTrue u (note_dir containing f ud)
  note_dir-IsTrue f u false ud i e h = h
  note_dir-IsTrue f u true ud i e h = (
    inr (record {
      visit = f;
      among = i;
      path = refl;
      named = uuid_from_path-true parse_uuid f.path u e;
    }),
    h.1,
  )

  started-IsTrue :
      (f : Visit) (u : Bytes) (containing : Bool) (r : Option ℕ) (ud : Upload)
      → In f fs
      → file_name f ≡ codes "startedat"
      → uuid_from_path parse_uuid f.path ≡ some (u, containing)
      → f.started ≡ r
      → IsTrue u ud
      → IsTrue u (started_or r ud)
  started-IsTrue f u containing none ud i n e q h = h
  started-IsTrue f u containing (some time) ud i n e q h =
      let (after, is, end) = uuid_from_path-IsLastUuid parse_uuid f.path u containing e in
      (h.0, inr (record { visit = f; among = i; file = n; read = q; after = after; named = is }))

  note_start-IsTrue :
      (f : Visit) (u : Bytes) (containing : Bool) (ud : Upload)
      → In f fs
      → uuid_from_path parse_uuid f.path ≡ some (u, containing)
      → IsTrue u ud
      → IsTrue u (note_start f ud)
  note_start-IsTrue f u containing ud i e h = elim (Bool-cases (file_name f == codes "startedat")) [
    | inr other ↦ rw other h
    | inl same ↦
        let n = (bytes_beq_iff (file_name f) (codes "startedat")).0 same in
        rw same (started-IsTrue f u containing f.started ud i n e refl h)
  ]

  pub AreTrue : Gathered → Type 0
  AreTrue g = AllTrue g.members × AllTrue g.pending

  begin_with-AreTrue :
      (found : Option (Bytes × Bool)) (f : Visit) (s : Gathered)
      → In f fs
      → uuid_from_path parse_uuid f.path ≡ found
      → AreTrue s
      → AreTrue (begin_with parse_uuid found f s)
  unfolding AreTrue
  begin_with-AreTrue none f s i e h = h
  begin_with-AreTrue (some (u, containing)) f s i e h =
      let ud = note_dir containing f (or_far f.far (lookup u s.members)) in
      let true_now : IsTrue u (note_start f ud) = note_start-IsTrue f u containing ud i e (
        note_dir-IsTrue f u containing (or_far f.far (lookup u s.members)) i e
          (or_far-IsTrue f u s.members i h.0)) in
      (
        h.0,
        λ w x m. elim (In-cons m) [
          | inl same ↦ subst (λ (q : Bytes × Upload). IsTrue q.0 q.1) (sym same) true_now
          | inr old ↦ h.1 w x old
        ],
      )

  Step-AreTrue : (s t : Gathered) → Step parse_uuid fs s t → AreTrue s → AreTrue t
  unfolding AreTrue begin_visit
  Step-AreTrue s t (visits f i e) h = elim (Bool-cases (is_reserved f)) [
    | inl reserved ↦ rw (e, reserved) h
    | inr plain ↦ rw (e, plain) (begin_with-AreTrue (uuid_from_path parse_uuid f.path) f s i refl h)
  ]
  Step-AreTrue s t (sets before after u ud p e) h =
      let in_pending : (q : Bytes × Upload) → In q (before ++ (u, ud) ∷ after) → In q s.pending =
        λ q i. subst (In q) (sym p) i in
      rw e (
        (λ w x m. elim (In-put u ud s.members m) [
          | inl same ↦
              subst (λ (q : Bytes × Upload). IsTrue q.0 q.1) (sym same)
                (h.1 u ud (in_pending (u, ud) (In-right before here)))
          | inr old ↦ h.0 w x old
        ]),
        λ w x m. elim (In-append before m) [
          | inl left ↦ h.1 w x (in_pending (w, x) (In-append_left _ ((u, ud) ∷ after) left))
          | inr right ↦ h.1 w x (in_pending (w, x) (In-right before (there right)))
        ],
      )

  Reach-AreTrue : (g : Gathered) → Reach parse_uuid fs g → AreTrue g
  unfolding AreTrue
  Reach-AreTrue g at_start = ((λ w x m. elim m [ ]), (λ w x m. elim m [ ]))
  Reach-AreTrue g (next_step {s} r step) = Step-AreTrue s g step (Reach-AreTrue s r)

  old_dirs-In :
      (older_than : ℕ) (m : Uploads) (dir : FilePath)
      → In dir (old_dirs older_than m)
      → (u : Bytes) × (ud : Upload) × In (u, ud) m
        × (ud.started_at < older_than)
        × (ud.containing_dir ≡ dir)
  unfolding old_dirs
  old_dirs-In older_than [] dir i = elim i [ ]
  old_dirs-In older_than ((w, x) ∷ m) dir i = elim (Bool-cases (ltb x.started_at older_than)) [
    | inr young ↦
        let (u, ud, j, old, same) = old_dirs-In older_than m dir (rw young at i) in
        (u, ud, there j, old, same)
    | inl early ↦ elim (In-cons (rw early at i)) [
      | inl same ↦ (w, x, here, ground (arith, early), sym same)
      | inr later ↦
          let (u, ud, j, old, same) = old_dirs-In older_than m dir later in
          (u, ud, there j, old, same)
    ]
  ]

  -- However the functions of the walk interleave, each path that is to be purged is of an upload for
  -- which a file `startedat` was read with a time before the limit, where the last UUID in that file's
  -- path is the upload's, and is a path of the walk whose last element is that UUID, or empty, if the
  -- limit is not later than ten thousand hours behind any visit.
  pub old_dirs-IsStarted :
      (g : Gathered) (older_than : ℕ) (dir : FilePath)
      → Reach parse_uuid fs g
      → ((f : Visit) → In f fs → older_than ≤ f.far)
      → In dir (old_dirs older_than g.members)
      → (u : Bytes) × (time : ℕ) × IsStarted u time
        × (time < older_than)
        × ((dir ≡ []) ⊎ IsUploadDir u dir)
  unfolding AreTrue
  old_dirs-IsStarted g older_than dir r far i =
      let (u, ud, j, old, same) = old_dirs-In older_than g.members dir i in
      let (place, time) = (Reach-AreTrue g r).0 u ud j in
      elim time [
        | inl (f, k, ahead) ↦ absurd (omega (arith, far f k, ahead, old))
        | inr begun ↦
            (u, ud.started_at, begun, old, subst (λ x. (x ≡ []) ⊎ IsUploadDir u x) same place)
      ]
