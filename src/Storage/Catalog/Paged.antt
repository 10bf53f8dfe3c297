-- ===== src/Storage/Catalog/Paged.antt =====
-- A page of the catalogue against the list of all repositories in the order of the walk.
use container_registry.Prelude.{
  ℕ, zero, suc, ◌+◌, ◌≤◌, ◌==◌, Bool, true, false, not, if◌then◌else◌, List, ◌∷◌, [], ◌++◌, some,
  length, take, drop, ◌≡◌, refl, sym, ap, ◌∙◌, nat_eq, arith, Bool-cases, inl, inr, append_assoc,
  append-nil, ◌⊎◌,
}
use container_registry.Prelude.Bytes.{Bytes, codes, bytes_eq, is_prefix}
use container_registry.Vacuum.{FilePath}
use container_registry.Storage.Join.{path_split}
use container_registry.Storage.Catalog.{
  less_path, trim_layers, handle_repository, Page, after_handling, Entry, directory, regular,
  Entries, no_more, more, walk_entry, walk_entries, repositories,
}

take-take : (n : ℕ) (xs zs : List Bytes) → take n (take n xs ++ zs) ≡ take n (xs ++ zs)
take-take zero xs zs = refl
take-take (suc n) [] zs = refl
take-take (suc n) (x ∷ xs) zs = ap (λ r. x ∷ r) (take-take n xs zs)

take-cong :
    (n : ℕ) (xs ys zs : List Bytes) → take n xs ≡ take n ys → take n (xs ++ zs) ≡ take n (ys ++ zs)
take-cong n xs ys zs e =
    sym (take-take n xs zs) ∙ (ap (λ r. take n (r ++ zs)) e ∙ take-take n ys zs)

take-full : (n : ℕ) (xs zs : List Bytes) → n ≤ length xs → take n (xs ++ zs) ≡ take n xs
take-full zero xs zs h = refl
take-full (suc n) [] zs h = absurd (omega (arith, h))
take-full (suc n) (x ∷ xs) zs h = ap (λ r. x ∷ r) (take-full n xs zs (omega (arith, h)))

-- The repositories of a list that come behind `last`.
pub behind : Bytes → List Bytes → List Bytes
behind last [] = []
behind last (r ∷ rs) = let rest = behind last rs in if less_path last r then r ∷ rest else rest

behind-append :
    (last : Bytes) (xs ys : List Bytes) → behind last (xs ++ ys) ≡ behind last xs ++ behind last ys
unfolding behind
behind-append last [] ys = refl
behind-append last (x ∷ xs) ys = ground (arith, behind-append last xs ys)

module _ (root : FilePath) where
  -- The repository of a path, if it ends in `_layers`, and whether the path is reserved.
  pub all_at : FilePath → List Bytes × Bool
  all_at path =
      let repo = drop (length root + 1) path in
      let file = (path_split repo).1 in
      if file == codes "_layers"
      then (trim_layers repo ∷ [], true)
      else ([], is_prefix (codes "_") file)

  pub unless_stopped : List Bytes × Bool → List Bytes → List Bytes
  unless_stopped (rs, true) rest = rs
  unless_stopped (rs, false) rest = rs ++ rest

  -- All repositories below a directory, in the order of the walk; the rest of a directory behind a
  -- regular file with a reserved name is left out.
  mutual
    unfolding all_at unless_stopped

    pub all_in : FilePath → Entry → List Bytes × Bool
    all_in dir (directory name entries) =
        let path = dir ++ b'/' ∷ name in
        (unless_stopped (all_at path) (all_below path entries), false)
    all_in dir (regular name) = all_at (dir ++ b'/' ∷ name)

    pub all_below : FilePath → Entries → List Bytes
    all_below dir no_more = []
    all_below dir (more entry entries) = unless_stopped (all_in dir entry) (all_below dir entries)

  handle-all :
      (last : Bytes) (path : FilePath)
      → handle_repository root last path ≡ (behind last (all_at path).0, (all_at path).1)
  unfolding handle_repository all_at behind
  handle-all last path =
      elim (Bool-cases ((path_split (drop (length root + 1) path)).1 == codes "_layers")) [
        | inl layers ↦ rw layers refl
        | inr other ↦ rw other refl
      ]

  module _ (n : ℕ) (last : Bytes) where
    -- The page has been extended by the repositories, as far as there is room.
    abbrev IsExtended : Page → List Bytes → Page → Type 0
    IsExtended page rs page' = take n page'.found ≡ take n (page.found ++ behind last rs)

    -- One visit: how the page is extended, and why the rest would be left out.
    handled :
        (r : List Bytes × Bool) (page : Page)
        → IsExtended page r.0 (after_handling n (behind last r.0, r.1) page).0
          × ((after_handling n (behind last r.0, r.1) page).1 ≡ true
              → (r.1 ≡ true) ⊎ (n ≤ length (after_handling n (behind last r.0, r.1) page).0.found))
          × ((after_handling n (behind last r.0, r.1) page).1 ≡ false → r.1 ≡ false)
    handled (rs, true) page = (refl, (λ h. inl refl), λ h. cc h)
    handled (rs, false) page = elim (Bool-cases (length (page.found ++ behind last rs) == n)) [
      | inl full ↦ rw full (refl, (λ h. inr (ground (arith, full))), λ h. refl)
      | inr room ↦ rw room (refl, (λ h. cc h), λ h. refl)
    ]

    IsExtended-more :
        (page page' page'' : Page) (r : List Bytes × Bool) (rest : List Bytes)
        → IsExtended page r.0 page'
        → r.1 ≡ false
        → IsExtended page' rest page''
        → IsExtended page (unless_stopped r rest) page''
    unfolding unless_stopped
    IsExtended-more page page' page'' (rs, true) rest e s f = cc s
    IsExtended-more page page' page'' (rs, false) rest e s f =
        f
        ∙ (take-cong n page'.found (page.found ++ behind last rs) (behind last rest) e
            ∙ ap (take n) (
                append_assoc page.found (behind last rs) (behind last rest)
                ∙ ap (λ x. page.found ++ x) (sym (behind-append last rs rest))))

    IsExtended-full :
        (page page' : Page) (r : List Bytes × Bool) (rest : List Bytes)
        → IsExtended page r.0 page'
        → (r.1 ≡ true) ⊎ (n ≤ length page'.found)
        → IsExtended page (unless_stopped r rest) page'
    unfolding unless_stopped
    IsExtended-full page page' (rs, true) rest e s = e
    IsExtended-full page page' (rs, false) rest e (inl s) = cc s
    IsExtended-full page page' (rs, false) rest e (inr full) =
        sym (take-full n page'.found (behind last rest) full)
        ∙ IsExtended-more page page' (record page' { found = page'.found ++ behind last rest })
            (rs, false) rest e refl refl

    abbrev IsVisited : Page → List Bytes × Bool → Page × Bool → Type 0
    IsVisited page r w =
        IsExtended page r.0 w.0
        × (w.1 ≡ true → (r.1 ≡ true) ⊎ (n ≤ length w.0.found))
        × (w.1 ≡ false → r.1 ≡ false)

    abbrev visit : FilePath → Page → Page × Bool
    visit path page = after_handling n (handle_repository root last path) page

    visited : (path : FilePath) (page : Page) → IsVisited page (all_at path) (visit path page)
    visited path page = rw (handle-all last path) (handled (all_at path) page)

    -- A directory whose visit has come to `w`, and whose entries, if they are walked, to `inside`.
    entered :
        (page inside : Page) (r : List Bytes × Bool) (rest : List Bytes) (w : Page × Bool)
        → IsVisited page r w
        → IsExtended w.0 rest inside
        → IsExtended page (unless_stopped r rest) (if w.1 then w.0 else inside)
    entered page inside r rest (page', true) h inner =
        IsExtended-full page page' r rest h.0 (h.1 refl)
    entered page inside r rest (page', false) h inner =
        IsExtended-more page page' inside r rest h.0 (h.2 refl) inner

    mutual
      unfolding walk_entry all_in behind

      walk_entry-IsVisited :
          (dir : FilePath) (entry : Entry) (page : Page)
          → IsVisited page (all_in dir entry) (walk_entry n root last dir entry page)
      walk_entry-IsVisited dir (regular name) page = visited (dir ++ b'/' ∷ name) page
      walk_entry-IsVisited dir (directory name entries) page =
          let path = dir ++ b'/' ∷ name in
          let w = visit path page in
          (
            entered page (walk_entries n root last path entries w.0) (all_at path)
                (all_below path entries) w (visited path page)
                (walk_entries-IsExtended path entries w.0),
            (λ h. cc h),
            λ h. refl,
          )

      walk_entries-IsExtended :
          (dir : FilePath) (entries : Entries) (page : Page)
          → IsExtended page (all_below dir entries) (walk_entries n root last dir entries page)
      walk_entries-IsExtended dir no_more page = ap (take n) (sym (append-nil page.found))
      walk_entries-IsExtended dir (more entry entries) page =
          let w = walk_entry n root last dir entry page in
          entered page (walk_entries n root last dir entries w.0) (all_in dir entry)
            (all_below dir entries) w (walk_entry-IsVisited dir entry page)
            (walk_entries-IsExtended dir entries w.0)

  -- With space for at least one repository, whatever the directories, the page holds the first
  -- repositories behind `last`, as many as there is space for, of all in the order of the walk.
  pub repositories-all :
      (n : ℕ) (last : Bytes) (entries : Entries)
      → (n == 0) ≡ false
      → (eof : Bool) × (repositories n root last entries
          ≡ some (take n (behind last (all_below root entries)), eof))
  unfolding repositories
  repositories-all n last entries h =
      let page = walk_entries n root last root entries (record { found = []; finished = false }) in
      let same =
        walk_entries-IsExtended n last root entries (record { found = []; finished = false }) in
      (not page.finished, rw (h, same) refl)
