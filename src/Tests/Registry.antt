-- ===== src/Tests/Registry.antt =====
-- Two digests, and a storage driver that keeps a list of files.
use container_registry.Prelude.{
  ℕ, ◌≤◌, ◌==◌, nat_eq, string_eq, Bool, true, false, ◌||◌, if◌then◌else◌, Result, ok, err, List,
  [], ◌∷◌, Option, some, none, ◌≡◌, ◌≢◌, refl, sym, ap, ◌∙◌, ◌⊎◌, inl, inr, Bool-cases, or-cases,
  arith, length,
}
use container_registry.Prelude.Bytes.{Bytes, codes, Lacks, bytes_eq, bytes_beq_iff}
use container_registry.Offline.Tags.{Digest}
use container_registry.Vacuum.{FilePath, DigestText}
use container_registry.Storage.Paths.{DigestParts}
use container_registry.Storage.Driver.{Fault, path_not_found, FileInfo, Driver, is_below}

abbrev pub first : Digest
first = "sha256:ab12"

abbrev pub second : Digest
second = "sha256:cd345"

abbrev is_known : Digest → Bool
is_known d = d == first || d == second

abbrev hex_of : Digest → Bytes
hex_of d = if d == first then codes "ab12" else codes "cd345"

known-cases : (d : Digest) → is_known d ≡ true → (d ≡ first) ⊎ (d ≡ second)
known-cases d h = elim (or-cases (d == first) (d == second) h) [
  | inl e ↦ inl ((string_eq.beq_iff d first).0 e)
  | inr e ↦ inr ((string_eq.beq_iff d second).0 e)
]

pub hex_plain :
    (b : ℕ) (d : Digest) → Lacks b (codes "ab12") → Lacks b (codes "cd345") → Lacks b (hex_of d)
hex_plain b d x y = elim (Bool-cases (d == first)) [ inl e ↦ rw e x | inr e ↦ rw e y ]

hex_apart : codes "cd345" ≢ codes "ab12"
hex_apart e = omega (arith, ap length e)

pub same_hex : (a b : Digest) → is_known a ≡ true → is_known b ≡ true → hex_of a ≡ hex_of b → a ≡ b
same_hex a b ha hb e = elim (known-cases a ha) [
  | inl x ↦ elim (known-cases b hb) [
    | inl y ↦ x ∙ sym y
    | inr y ↦ absurd (hex_apart (sym (rw (x, y) at e)))
  ]
  | inr x ↦ elim (known-cases b hb) [
    | inl y ↦ absurd (hex_apart (rw (x, y) at e))
    | inr y ↦ x ∙ sym y
  ]
]

pub sha_named : codes "sha256" ≢ []
sha_named e = cc e

abbrev pub known : DigestText
known = record {
  validate = is_known;
  algorithm = λ d. codes "sha256";
  hex = hex_of;
  plain_algorithm = λ d v. omega arith;
  named = λ d v. sha_named;
  plain_hex = λ d v. hex_plain b'/' d (omega arith) (omega arith);
  two_parts = λ a b va vb ea eb. same_hex a b va vb eb;
}

abbrev digest_for : Bytes → Digest
digest_for h = if h == codes "ab12" then first else second

abbrev parse_known : Bytes → Option Digest
parse_known c =
    if c == codes first then some first else if c == codes second then some second else none

pub from_hex_known : (d : Digest) → is_known d ≡ true → digest_for (hex_of d) ≡ d
from_hex_known d h = elim (known-cases d h) [ inl e ↦ rw e refl | inr e ↦ rw e refl ]

pub parse_codes_known : (d : Digest) → is_known d ≡ true → parse_known (codes d) ≡ some d
parse_codes_known d h = elim (known-cases d h) [ inl e ↦ rw e refl | inr e ↦ rw e refl ]

pub known_long : (d : Digest) → is_known d ≡ true → 2 ≤ length (hex_of d)
known_long d h = elim (known-cases d h) [ inl e ↦ rw e (omega arith) | inr e ↦ rw e (omega arith) ]

pub either_known : (c : Bytes) → is_known (if length c == 1 then first else second) ≡ true
either_known c = elim (Bool-cases (length c == 1)) [ inl e ↦ rw e refl | inr e ↦ rw e refl ]

abbrev pub known_parts : DigestParts known
known_parts = record {
  from_bytes = λ c. if length c == 1 then first else second;
  from_hex = λ a h. digest_for h;
  parse = parse_known;
  from_bytes-valid = either_known;
  from_hex-valid = from_hex_known;
  parse-codes = parse_codes_known;
  dotless_hex = λ d v. hex_plain b'.' d (omega arith) (omega arith);
  long_hex = known_long;
}

abbrev Files : Type 0
Files = List (FilePath × Bytes)

abbrev read : FilePath → Files → Result Fault Bytes
read p [] = err path_not_found
read p ((q, c) ∷ s) = if q == p then ok c else read p s

abbrev any_below : FilePath → Files → Bool
any_below p [] = false
any_below p ((q, c) ∷ s) = is_below p q || any_below p s

abbrev prune : FilePath → Files → Files
prune p [] = []
prune p ((q, c) ∷ s) = let rest = prune p s in if is_below p q then rest else (q, c) ∷ rest

abbrev info : Result Fault Bytes → Bool → Result Fault FileInfo
info (ok c) below = ok (record { is_dir = false; size = length c })
info (err e) true = ok (record { is_dir = true; size = 0 })
info (err e) false = err path_not_found

pub read_first : (p : FilePath) (c : Bytes) (s : Files) → read p ((p, c) ∷ s) ≡ ok c
read_first p c s = rw ((bytes_beq_iff p p).1 refl) refl

pub read_other : (p q : FilePath) (c : Bytes) (s : Files) → q ≢ p → read q ((p, c) ∷ s) ≡ read q s
read_other p q c s n = ground (arith, n, bytes_beq_iff p q)

pub read-prune :
    (p q : FilePath) (s : Files) → is_below p q ≡ true → read q (prune p s) ≡ err path_not_found
read-prune p q [] h = refl
read-prune p q ((r, c) ∷ s) h = elim (Bool-cases (is_below p r)) [
  | inl below ↦ rw below (read-prune p q s h)
  | inr stays ↦ elim (Bool-cases (r == q)) [
    | inl same ↦ cc (h, stays, ap (is_below p) ((bytes_beq_iff r q).0 same))
    | inr other ↦ rw (stays, other) (read-prune p q s h)
  ]
]

pub read-prune_other :
    (p q : FilePath) (s : Files) → is_below p q ≡ false → read q (prune p s) ≡ read q s
read-prune_other p q [] h = refl
read-prune_other p q ((r, c) ∷ s) h = elim (Bool-cases (is_below p r)) [
  | inl below ↦ elim (Bool-cases (r == q)) [
    | inl same ↦ cc (h, below, ap (is_below p) ((bytes_beq_iff r q).0 same))
    | inr other ↦ rw (below, other) (read-prune_other p q s h)
  ]
  | inr stays ↦ rw (stays, read-prune_other p q s h) refl
]

self_below : (p : FilePath) → is_below p p ≡ true
self_below p = rw ((bytes_beq_iff p p).1 refl) refl

pub none_below :
    (p : FilePath) (s : Files)
    → any_below p s ≡ false
    → (prune p s ≡ s) × (read p s ≡ err path_not_found)
none_below p [] h = (refl, refl)
none_below p ((q, c) ∷ s) h =
    let above : is_below p q ≡ false = ground (arith, h) in
    let rest = none_below p s (ground (arith, h)) in
    let apart : (q == p) ≡ false = elim (Bool-cases (q == p)) [
      | inr e ↦ e
      | inl e ↦ cc (above, self_below p, ap (is_below p) ((bytes_beq_iff q p).0 e))
    ] in
    (rw (above, rest.0) refl, rw apart rest.1)

pub stat_other :
    (p q : FilePath) (c : Bytes) (s : Files)
    → is_below q p ≡ false
    → info (read q ((p, c) ∷ s)) (any_below q ((p, c) ∷ s)) ≡ info (read q s) (any_below q s)
stat_other p q c s above =
    let apart : (p == q) ≡ false = elim (Bool-cases (p == q)) [
      | inr e ↦ e
      | inl e ↦ cc (above, self_below q, ap (is_below q) ((bytes_beq_iff p q).0 e))
    ] in
    rw (apart, above) refl

pub absent_none :
    (b : Bool) → (if b then none else some path_not_found) ≡ some path_not_found → b ≡ false
absent_none true e = cc e
absent_none false e = refl

abbrev pub files : Driver
files = record {
  Disk = Files;
  get_content = read;
  stat = λ p s. info (read p s) (any_below p s);
  list = λ p s. ok [];
  put_content = λ p c s. (none, (p, c) ∷ s);
  delete = λ p s. (if any_below p s then none else some path_not_found, prune p s);
  get-put = λ p c s h. read_first p c s;
  get-put_other = λ p q c s h n. read_other p q c s n;
  stat-put = λ p c s h. ap (λ r. info r (any_below p ((p, c) ∷ s))) (read_first p c s);
  stat-put_other = λ p q c s h above. stat_other p q c s above;
  get-delete = λ p q s h below. read-prune p q s below;
  get-delete_other = λ p q s h above. read-prune_other p q s above;
  delete-absent = λ p s h. none_below p s (absent_none (any_below p s) h);
}
