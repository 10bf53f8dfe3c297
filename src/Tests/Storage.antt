-- ===== src/Tests/Storage.antt =====
-- A storage driver and a digest library for the examples.
use text.Mathlib.TextEquality.{Char-path}
use container_registry.Prelude.{
  false, List, [], ◌∷◌, String, ◌≡◌, ◌≢◌, refl, ap₂, In, ◌==◌, nat_eq, Bool-cases, inl, inr, arith,
  if◌then◌else◌,
}
use container_registry.Prelude.Bytes.{codes, lacks, lacks-Lacks, bytes_eq, bytes_beq_iff}
use container_registry.Prelude.Sets.{contains, In-of_contains, contains_of_In}
use container_registry.Vacuum.{FilePath, DigestText, Deleter, succeeded}

pub codes-injective : (s t : String) → codes s ≡ codes t → s ≡ t
codes-injective String.[] String.[] e = refl
codes-injective String.[] (String.◌∷◌ c t) e = cc e
codes-injective (String.◌∷◌ c s) String.[] e = cc e
codes-injective (String.◌∷◌ c s) (String.◌∷◌ d t) e =
    ap₂ String.◌∷◌ (Char-path c d (cc e)) (codes-injective s t (cc e))

pub sha256_named : codes "sha256" ≢ []
sha256_named e = cc e

-- Every text without a slash counts as the hexadecimal part of a sha256 digest.
abbrev pub sha256 : DigestText
sha256 = record {
  validate = λ d. lacks b'/' (codes d);
  algorithm = λ d. codes "sha256";
  hex = codes;
  plain_algorithm = λ d v. omega arith;
  named = λ d v. sha256_named;
  plain_hex = λ d v. lacks-Lacks b'/' (codes d) v;
  two_parts = λ a b va vb ea eb. codes-injective a b eb;
}

abbrev pub without : List FilePath → List FilePath → List FilePath
without ps [] = []
without ps (q ∷ s) = if contains ps q then without ps s else q ∷ without ps s

pub without-keeps :
    (ps : List FilePath) (p : FilePath) (s : List FilePath)
    → ¬ In p ps
    → contains (without ps s) p ≡ contains s p
unfolding contains
without-keeps ps p [] n = refl
without-keeps ps p (q ∷ s) n = elim (Bool-cases (contains ps q)) [
  | inl gone ↦ elim (Bool-cases (q == p)) [
    | inl same ↦ absurd (n (rw ((bytes_beq_iff q p).0 same) at (In-of_contains q ps gone)))
    | inr other ↦ rw gone (rw other (without-keeps ps p s n))
  ]
  | inr stays ↦ rw stays (rw (without-keeps ps p s n) refl)
]

pub without-gone :
    (ps : List FilePath) (p : FilePath) (s : List FilePath)
    → In p ps
    → contains (without ps s) p ≡ false
unfolding contains
without-gone ps p [] i = refl
without-gone ps p (q ∷ s) i = elim (Bool-cases (contains ps q)) [
  | inl gone ↦ rw gone (without-gone ps p s i)
  | inr stays ↦ elim (Bool-cases (q == p)) [
    | inl same ↦ cc (contains_of_In i, stays, (bytes_beq_iff q p).0 same)
    | inr other ↦ rw (stays, other) (without-gone ps p s i)
  ]
]

-- A disk is the list of its files.
abbrev pub disk : Deleter
disk = record {
  Disk = List FilePath;
  has = λ p s. contains s p;
  delete = λ p s. (succeeded, without (p ∷ []) s);
  delete_files = λ ps s. (succeeded, without ps s);
  delete_files_only = λ ps p s n. without-keeps ps p s n;
  delete_files_gone = λ ps p s e i. without-gone ps p s i;
}
