-- ===== src/Vacuum/Paths.antt =====
-- The paths that the vacuum deletes: which can be the same, and which cannot.
use container_registry.Prelude.{
  ℕ, true, false, if◌then◌else◌, List, [], ◌∷◌, ◌++◌, none, some, String, map, ◌≡◌, refl, sym, ap,
  ◌∙◌, inl, inr, In, here, there, In-cons, In-append, zero, suc, take, Bool-cases, Option-cases,
  arith, nat_eq, ◌==◌, ◌||◌,
}
use container_registry.Prelude.Bytes.{Bytes, codes, Lacks, split_at_byte, cancel_left}
use container_registry.Offline.Tags.{Digest}
use container_registry.Offline.Mark.{ManifestDel}
use container_registry.Vacuum.{
  FilePath, DigestText, replace_algorithm, digest_path, blob_data_path, manifest_link, tag_link,
  tag_links, all_links, blob_data_paths,
}

-- An algorithm's name has none of the replaced bytes, so it stays as it is.
pub replace_plain :
    (a : Bytes) → Lacks b'+' a → Lacks b'.' a → Lacks b';' a → replace_algorithm a ≡ a
replace_plain [] p q r = refl
replace_plain (c ∷ a) p q r =
    let rest = replace_plain a p.1 q.1 r.1 in
    let head : (if c == b'+' || c == b'.' || c == b';' then b'/' else c) ≡ c =
      ground (arith, p.0, q.0, r.0) in
    cc (head, rest)

abbrev first : Bytes → ℕ
first [] = 0
first (c ∷ s) = c

pub take-Lacks : (b n : ℕ) (xs : Bytes) → Lacks b xs → Lacks b (take n xs)
take-Lacks b zero xs l = tt
take-Lacks b (suc n) [] l = tt
take-Lacks b (suc n) (x ∷ xs) l = (l.0, take-Lacks b n xs l.1)

module _ (t : DigestText) where
  -- The path of a valid digest, with the algorithm as it is.
  unfoldable pub plain_path : Digest → Bytes
  plain_path d = t.algorithm d ++ b'/' ∷ (take 2 (t.hex d) ++ b'/' ∷ (t.hex d ++ codes "/data"))

  pub blob_data_path-valid :
      (d : Digest)
      → t.validate d ≡ true
      → blob_data_path t d ≡ some (codes "/docker/registry/v2/blobs/" ++ plain_path d)
  unfolding blob_data_path digest_path plain_path
  blob_data_path-valid d v =
      let (slash, plus, dot, semi) = t.plain_algorithm d v in
      let same = replace_plain (t.algorithm d) plus dot semi in ground (arith, v, same)

  blob_data_path-invalid : (d : Digest) → t.validate d ≡ false → blob_data_path t d ≡ none
  unfolding blob_data_path digest_path
  blob_data_path-invalid d v = ground (arith, v)

  pub blob_data_path-some :
      (d : Digest) {p : FilePath}
      → blob_data_path t d ≡ some p
      → (t.validate d ≡ true) × (p ≡ codes "/docker/registry/v2/blobs/" ++ plain_path d)
  blob_data_path-some d {p} e = elim (Bool-cases (t.validate d)) [
    | inl v ↦ (v, cc (e, blob_data_path-valid d v))
    | inr v ↦ cc (e, blob_data_path-invalid d v)
  ]

  plain_path_injective :
      (a b : Digest)
      → t.validate a ≡ true
      → t.validate b ≡ true
      → plain_path a ≡ plain_path b
      → a ≡ b
  unfolding plain_path
  plain_path_injective a b va vb e =
      let (slash_a, _, _, _) = t.plain_algorithm a va in
      let (slash_b, _, _, _) = t.plain_algorithm b vb in
      let (algorithms, rest) =
        split_at_byte b'/' (t.algorithm a) (t.algorithm b) slash_a slash_b e in
      let ha = t.plain_hex a va in
      let hb = t.plain_hex b vb in
      let (_, rest') =
        split_at_byte b'/' (take 2 (t.hex a)) (take 2 (t.hex b)) (take-Lacks b'/' 2 (t.hex a) ha)
          (take-Lacks b'/' 2 (t.hex b) hb) rest in
      let (hexes, _) = split_at_byte b'/' (t.hex a) (t.hex b) ha hb rest' in
      t.two_parts a b va vb algorithms hexes

  -- Different valid digests have different data files.
  pub blob_data_path-injective :
      (a b : Digest) {p : FilePath}
      → blob_data_path t a ≡ some p
      → blob_data_path t b ≡ some p
      → a ≡ b
  blob_data_path-injective a b ea eb =
      let (va, pa) = blob_data_path-some a ea in
      let (vb, pb) = blob_data_path-some b eb in
      plain_path_injective a b va vb
        (cancel_left (codes "/docker/registry/v2/blobs/") (sym pa ∙ pb))

  -- Paths below the folder of repositories.
  abbrev pub IsLink : FilePath → Type 0
  IsLink p = (r : Bytes) × (p ≡ codes "/docker/registry/v2/repositories/" ++ r)

  pub blob_not-IsLink : (d : Digest) {p : FilePath} → blob_data_path t d ≡ some p → ¬ IsLink p
  blob_not-IsLink d e (r, link) =
      let (_, p) = blob_data_path-some d e in
      first_byte (cancel_left (codes "/docker/registry/v2/") (sym p ∙ link))
    where
      first_byte : {x y : Bytes} → ◌≡◌ {A = Bytes} (b'b' ∷ x) (b'r' ∷ y) → ⊥
      first_byte h = absurd (omega (arith, ap first h))

  mapped-IsLink :
      {A : Type 0} (f : A → FilePath)
      → ((x : A) → IsLink (f x))
      → (xs : List A) {p : FilePath} → In p (map f xs)
      → IsLink p
  mapped-IsLink f g [] i = elim i [ ]
  mapped-IsLink f g (x ∷ xs) i = elim (In-cons i) [
    | inl e ↦ rw e (g x)
    | inr later ↦ mapped-IsLink f g xs later
  ]

  manifest_link-IsLink : (m : ManifestDel) → IsLink (manifest_link t m)
  unfolding manifest_link
  manifest_link-IsLink m = (_, refl)

  tag_link-IsLink : (m : ManifestDel) (tag : String) → IsLink (tag_link t m tag)
  unfolding tag_link
  tag_link-IsLink m tag = (_, refl)

  tag_links-IsLink : (mm : List ManifestDel) {p : FilePath} → In p (tag_links t mm) → IsLink p
  unfolding tag_links
  tag_links-IsLink [] i = elim i [ ]
  tag_links-IsLink (m ∷ mm) i = elim (In-append (map (tag_link t m) m.tags) i) [
    | inl now ↦ mapped-IsLink (tag_link t m) (tag_link-IsLink m) m.tags now
    | inr later ↦ tag_links-IsLink mm later
  ]

  pub all_links-IsLink : (mm : List ManifestDel) {p : FilePath} → In p (all_links t mm) → IsLink p
  unfolding all_links
  all_links-IsLink mm i = elim (In-append (map (manifest_link t) mm) i) [
    | inl m ↦ mapped-IsLink (manifest_link t) manifest_link-IsLink mm m
    | inr g ↦ tag_links-IsLink mm g
  ]

  -- The paths of a list of digests, each from one of them.
  pub In-blob_data_paths :
      (ds : List Digest) {ps : List FilePath} {p : FilePath}
      → blob_data_paths t ds ≡ some ps
      → In p ps
      → (d : Digest) × In d ds × (blob_data_path t d ≡ some p)
  unfolding blob_data_paths
  In-blob_data_paths [] {ps} e i = let q : ps ≡ [] = cc e in elim (rw q at i) [ ]
  In-blob_data_paths (d ∷ ds) {ps} {p} e i = elim (Option-cases (blob_data_path t d)) [
    | inl n ↦ ground (arith, n)
    | inr (q, h) ↦ elim (Option-cases (blob_data_paths t ds)) [
      | inl n ↦ ground (arith, h, n)
      | inr (qs, hs) ↦
          let same : ps ≡ q ∷ qs = ground (arith, h, hs) in
          elim (In-cons (rw same at i)) [
            | inl now ↦ (d, here, rw now h)
            | inr later ↦ let (d', j, k) = In-blob_data_paths ds hs later in (d', there j, k)
          ]
    ]
  ]
