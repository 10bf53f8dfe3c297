-- ===== src/Storage/Paths.antt =====
-- registry/storage/paths.go: the path of each kind of file, and the digest that a path holds.
pub mod Plain
pub mod Proper
pub mod Pieces
pub mod Elements
pub mod Distinct
pub mod Back
pub mod Below
pub mod Agreed
use container_registry.Prelude.{
  ℕ, zero, suc, ◌+◌, ◌/◌, ◌%◌, ◌==◌, ◌≤◌, Bool, true, false, not, if◌then◌else◌, List, [], ◌∷◌,
  ◌++◌, Option, none, some, ◌≡◌, length, take, drop, nat_eq, map,
}
use container_registry.Prelude.Bytes.{Bytes, codes, bytes_eq, Lacks, is_prefix}
use container_registry.Prelude.Int.{ℤ, pos, negsuc}
use container_registry.Offline.Tags.{Digest}
use container_registry.Vacuum.{FilePath, DigestText, replace_algorithm}
use container_registry.Storage.Join.{path_join, path_split, path_dir, path_base}

-- What else the storage uses of github.com/opencontainers/go-digest: `FromBytes`, `NewDigestFromHex`,
-- and `Parse`, which gives what it accepts as a valid digest. The hexadecimal text has two digits or more.
pub record DigestParts (t : DigestText) : Type 0 where
  pub from_bytes : Bytes → Digest
  pub from_hex : Bytes → Bytes → Digest
  pub parse : Bytes → Option Digest
  pub from_bytes-valid : (content : Bytes) → t.validate (from_bytes content) ≡ true
  pub from_hex-valid : (d : Digest) → t.validate d ≡ true → from_hex (t.algorithm d) (t.hex d) ≡ d
  pub parse-codes : (d : Digest) → t.validate d ≡ true → parse (codes d) ≡ some d
  pub dotless_hex : (d : Digest) → t.validate d ≡ true → Lacks b'.' (t.hex d)
  pub long_hex : (d : Digest) → t.validate d ≡ true → 2 ≤ length (t.hex d)

pub data PathSpec : Type 0 where
  manifest_revisions : (name : Bytes) → PathSpec
  manifest_revision manifest_revision_link : (name : Bytes) → (revision : Digest) → PathSpec
  manifest_tags : (name : Bytes) → PathSpec
  manifest_tag manifest_tag_current manifest_tag_index : (name : Bytes) → (tag : Bytes) → PathSpec
  manifest_tag_index_entry manifest_tag_index_entry_link :
      (name : Bytes) → (tag : Bytes) → (revision : Digest) → PathSpec
  layer_link : (name : Bytes) → (digest : Digest) → PathSpec
  blobs : PathSpec
  blob blob_data : (digest : Digest) → PathSpec
  upload_data upload_started_at : (name : Bytes) → (id : Bytes) → PathSpec
  upload_hash_state :
      (name : Bytes) → (id : Bytes) → (alg : Bytes) → (offset : ℤ) → (list : Bool) → PathSpec
  repositories_root : PathSpec
  repository_root : (name : Bytes) → PathSpec

-- `%d`, with fuel for the digits; a number has no more digits than its value, or one.
unfoldable pub digits : ℕ → ℕ → Bytes → Bytes
digits zero n acc = acc
digits (suc fuel) n acc =
    let rest = digits fuel (n / 10) ((b'0' + n % 10) ∷ acc) in
    if n / 10 == 0 then (b'0' + n % 10) ∷ acc else rest

unfoldable pub decimal : ℤ → Bytes
unfolding digits
decimal (pos n) = digits (suc n) n []
decimal (negsuc n) = b'-' ∷ digits (suc (suc n)) (suc n) []

abbrev pub root_prefix : List Bytes
root_prefix = codes "/docker/registry/" ∷ codes "v2" ∷ []

abbrev pub repo_prefix : List Bytes
repo_prefix = root_prefix ++ codes "repositories" ∷ []

-- behind some elements, those of a digest and then others
abbrev pub join_digest : List Bytes → Option (List Bytes) → List Bytes → Option FilePath
join_digest es none rest = none
join_digest es (some cs) rest = some (path_join (es ++ (cs ++ rest)))

abbrev pub join_link : Option FilePath → Option FilePath
join_link none = none
join_link (some root) = some (path_join (root ∷ codes "link" ∷ []))

abbrev pub tags_path : Bytes → FilePath
tags_path name = path_join (repo_prefix ++ name ∷ codes "_manifests" ∷ codes "tags" ∷ [])

abbrev pub tag_path : Bytes → Bytes → FilePath
tag_path name tag = path_join (tags_path name ∷ tag ∷ [])

abbrev pub index_path : Bytes → Bytes → FilePath
index_path name tag = path_join (tag_path name tag ∷ codes "index" ∷ [])

abbrev pub index_entry : FilePath → Option (List Bytes) → Option FilePath
index_entry root none = none
index_entry root (some cs) = some (path_join (root ∷ path_join cs ∷ []))

abbrev pub offset_text : ℤ → Bool → Bytes
offset_text offset list = if list then [] else decimal offset

module _ (t : DigestText) where
  -- `digestPathComponents`; none if the digest is invalid
  unfoldable pub digest_path_components : Digest → Bool → Option (List Bytes)
  digest_path_components d multilevel =
      if not (t.validate d)
      then none
      else some (
          replace_algorithm (t.algorithm d)
          ∷ ((if multilevel then take 2 (t.hex d) ∷ [] else []) ++ t.hex d ∷ []))

  abbrev pub revision_path : Bytes → Digest → Option FilePath
  revision_path name d =
      join_digest (repo_prefix ++ name ∷ codes "_manifests" ∷ codes "revisions" ∷ [])
        (digest_path_components d false) []

  -- `pathFor`
  unfoldable pub path_for : PathSpec → Option FilePath
  unfolding digest_path_components
  path_for (manifest_revisions name) =
      some (path_join (repo_prefix ++ name ∷ codes "_manifests" ∷ codes "revisions" ∷ []))
  path_for (manifest_revision name d) = revision_path name d
  path_for (manifest_revision_link name d) = join_link (revision_path name d)
  path_for (manifest_tags name) = some (tags_path name)
  path_for (manifest_tag name tag) = some (tag_path name tag)
  path_for (manifest_tag_current name tag) =
      some (path_join (tag_path name tag ∷ codes "current" ∷ codes "link" ∷ []))
  path_for (manifest_tag_index name tag) = some (index_path name tag)
  path_for (manifest_tag_index_entry name tag d) =
      index_entry (index_path name tag) (digest_path_components d false)
  path_for (manifest_tag_index_entry_link name tag d) =
      join_link (index_entry (index_path name tag) (digest_path_components d false))
  path_for (layer_link name d) =
      join_link (
        join_digest (repo_prefix ++ name ∷ codes "_layers" ∷ []) (digest_path_components d false)
          [])
  path_for blobs = some (path_join (root_prefix ++ codes "blobs" ∷ []))
  path_for (blob d) =
      join_digest (root_prefix ++ codes "blobs" ∷ []) (digest_path_components d true) []
  path_for (blob_data d) =
      join_digest (root_prefix ++ codes "blobs" ∷ []) (digest_path_components d true)
        (codes "data" ∷ [])
  path_for (upload_data name id) =
      some (path_join (repo_prefix ++ name ∷ codes "_uploads" ∷ id ∷ codes "data" ∷ []))
  path_for (upload_started_at name id) =
      some (path_join (repo_prefix ++ name ∷ codes "_uploads" ∷ id ∷ codes "startedat" ∷ []))
  path_for (upload_hash_state name id alg offset list) = some (
      path_join (
        repo_prefix
        ++ name ∷ codes "_uploads" ∷ id ∷ codes "hashstates" ∷ alg ∷ offset_text offset list ∷ []))
  path_for repositories_root = some (path_join repo_prefix)
  path_for (repository_root name) = some (path_join (repo_prefix ++ name ∷ []))

-- `strings.TrimSuffix(s, "/data")`
unfoldable pub trim_data : Bytes → Bytes
trim_data [] = []
trim_data (c ∷ s) = let rest = trim_data s in if (c ∷ s) == codes "/data" then [] else c ∷ rest

-- `digestFromPath`: the digest, and whether `Validate` refuses it; none if `hex[:2]` is out of range,
-- which panics
abbrev pub algorithm_of : Bytes → Bytes → Bytes → Bytes
algorithm_of dir next hex = if next == take 2 hex then path_base dir else next

module _ (t : DigestText) (p : DigestParts t) where
  abbrev pub made_digest : Bytes → Bytes → Digest × Bool
  made_digest algo hex = let d = p.from_hex algo hex in (d, not (t.validate d))

  abbrev pub digest_in : Bytes × Bytes → Bytes → Bytes → Option (Digest × Bool)
  digest_in above hex [] = none
  digest_in above hex (c ∷ cs) = some (made_digest (algorithm_of above.0 above.1 hex) hex)

  abbrev pub digest_of : Bytes × Bytes → Option (Digest × Bool)
  digest_of (dir, hex) = digest_in (path_split (path_dir dir)) hex (drop 1 hex)

  unfoldable pub digest_from_path : FilePath → Option (Digest × Bool)
  digest_from_path path = digest_of (path_split (trim_data path))
