-- ===== src/DigestSet.antt =====
-- digestset/set.go: a set of digests, sorted by hexadecimal text and then by algorithm, and the
-- lookup of digests by a short text. The mutex makes each operation one step.
pub mod Order
pub mod Search
pub mod Sorted
pub mod Changed
pub mod Refined
pub mod Short
use container_registry.Prelude.{
  ℕ, zero, suc, ◌+◌, ◌/◌, ltb, Bool, true, false, not, ◌&&◌, ◌||◌, if◌then◌else◌, Result, ok, err,
  List, [], ◌∷◌, ◌++◌, Option, none, some, map, length, take, drop, get_elem?, ◌==◌, nat_eq,
  string_eq,
}
use container_registry.Prelude.Bytes.{Bytes, bytes_eq, codes, less, is_prefix}
use container_registry.Offline.Tags.{Digest}
use container_registry.Vacuum.{DigestText}

pub record Entry : Type 0 where
  pub alg : Bytes
  pub val : Bytes
  pub digest : Digest

abbrev pub Set : Type 0
Set = List Entry

-- `NewSet`
abbrev pub new_set : Set
new_set = []

-- The loop of `sort.Search`, with fuel.
unfoldable pub search_loop : ℕ → (ℕ → Bool) → ℕ → ℕ → ℕ
search_loop zero f i j = i
search_loop (suc fuel) f i j =
    let h = (i + j) / 2 in
    elim (ltb i j) [
      | false ↦ i
      | true ↦ elim (f h) [ true ↦ search_loop fuel f i h | false ↦ search_loop fuel f (suc h) j ]
    ]

unfoldable pub sort_search : ℕ → (ℕ → Bool) → ℕ
unfolding search_loop
sort_search n f = search_loop n f 0 n

-- `digestEntries.Less`, on the keys of two entries
unfoldable pub less_key : Bytes → Bytes → Bytes → Bytes → Bool
less_key val alg val' alg' = if val == val' then less alg alg' else less val val'

abbrev pub precedes : Entry → Entry → Bool
precedes x e = less_key x.val x.alg e.val e.alg

-- Whether the entry at an index passes a test; an index out of range is not asked for.
abbrev pub passes : (Entry → Bool) → Option Entry → Bool
passes test none = true
passes test (some x) = test x

-- `searchFunc` of `Add` and `Remove` and of a full `Lookup`: the entry is not below the key.
abbrev pub not_below : Bytes → Bytes → Entry → Bool
not_below val alg x = not (less_key x.val x.alg val alg)

-- `searchFunc` of a `Lookup` of a text that is no digest.
abbrev pub not_below_text : Bytes → Entry → Bool
not_below_text s x = not (less x.val s)

abbrev pub search : Set → (Entry → Bool) → ℕ
search es test = sort_search (length es) (λ i. passes test (get_elem? es i))

-- `checkShortMatch`
unfoldable pub check_short_match : Bytes → Bytes → Bytes → Bytes → Bool
check_short_match alg hex short_alg short_hex =
    if length hex == length short_hex
    then hex == short_hex && (length short_alg == 0 || alg == short_alg)
    else is_prefix short_hex hex && (length short_alg == 0 || alg == short_alg)

pub data Missing : Type 0 where
  not_found ambiguous : Missing

module _ (t : DigestText) where
  abbrev pub entry_of : Digest → Entry
  entry_of d = record { alg = t.algorithm d; val = t.hex d; digest = d }

  abbrev pub add_at : Digest → Option Entry → ℕ → Set → Set
  add_at d none idx es = es ++ entry_of d ∷ []
  add_at d (some x) idx es = if x.digest == d then es else take idx es ++ entry_of d ∷ drop idx es

  -- `Add`: the new set, and whether the digest is refused as invalid
  unfoldable pub add : Digest → Set → Set × Bool
  add d es =
      let idx = search es (not_below (t.hex d) (t.algorithm d)) in
      if not (t.validate d) then (es, true) else (add_at d (get_elem? es idx) idx es, false)

  abbrev pub remove_at : Digest → Option Entry → ℕ → Set → Set
  remove_at d none idx es = es
  remove_at d (some x) idx es = if x.digest == d then take idx es ++ drop (suc idx) es else es

  -- `Remove`
  unfoldable pub remove : Digest → Set → Set × Bool
  remove d es =
      let idx = search es (not_below (t.hex d) (t.algorithm d)) in
      if not (t.validate d) then (es, true) else (remove_at d (get_elem? es idx) idx es, false)

-- `All`
abbrev pub all : Set → List Digest
all es = map (λ x. x.digest) es

-- the last test of `Lookup`: the entry behind the one that was found
abbrev pub unless_next : Bytes → Bytes → Entry → Option Entry → Result Missing Digest
unless_next alg hex x none = ok x.digest
unless_next alg hex x (some y) =
    if check_short_match y.alg y.val alg hex then err ambiguous else ok x.digest

abbrev pub lookup_at : Bytes → Bytes → Option Entry → Option Entry → Result Missing Digest
lookup_at alg hex none next = err not_found
lookup_at alg hex (some x) next =
    if not (check_short_match x.alg x.val alg hex)
    then err not_found
    else if x.alg == alg && x.val == hex
    then ok x.digest
    else unless_next alg hex x next

abbrev pub lookup_from : Set → ℕ → Bytes → Bytes → Result Missing Digest
lookup_from es idx alg hex = lookup_at alg hex (get_elem? es idx) (get_elem? es (suc idx))

-- `Lookup`. `invalid_format` tells whether `digest.Parse` answers `ErrDigestInvalidFormat`. An
-- empty set has no entry at any index, so it needs no test of its own.
unfoldable pub lookup : DigestText → (Digest → Bool) → Digest → Set → Result Missing Digest
lookup t invalid_format d es =
    if invalid_format d
    then lookup_from es (search es (not_below_text (codes d))) [] (codes d)
    else lookup_from es (search es (not_below (t.hex d) (t.algorithm d))) (t.algorithm d) (t.hex d)
