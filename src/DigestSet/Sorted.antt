-- ===== src/DigestSet/Sorted.antt =====
-- Sorted sets: where the binary search arrives, and what `Add` and `Remove` come to there.
use container_registry.Prelude.{
  ℕ, zero, suc, ◌≤◌, ◌<◌, leb, Bool, true, false, if◌then◌else◌, [], ◌∷◌, Option, none, some, ◌≡◌,
  refl, ap, ◌∙◌, arith, Bool-cases, inl, inr, All, length, get_elem?, ◌==◌, string_eq,
}
use container_registry.Prelude.Bytes.{Bytes}
use container_registry.Offline.Tags.{Digest}
use container_registry.Vacuum.{DigestText}
use container_registry.DigestSet.Order.{key_trans}
use container_registry.DigestSet.Search.{sort_search_lem}
use container_registry.DigestSet.{
  Entry, Set, search, passes, precedes, not_below, entry_of, add, add_at, remove, remove_at,
}

-- Each entry is below all later ones.
abbrev pub IsSorted : Set → Type 0
IsSorted [] = Unit
IsSorted (x ∷ es) = All (λ y. precedes x y ≡ true) es × IsSorted es

-- How many entries at the front fail the test.
unfoldable pub rank : (Entry → Bool) → Set → ℕ
rank test [] = 0
rank test (x ∷ es) = let rest = rank test es in if test x then 0 else suc rest

-- Along a sorted set, the test stays true once it is.
abbrev pub IsUpward : (Entry → Bool) → Type 0
IsUpward test = (x y : Entry) → precedes x y ≡ true → test x ≡ true → test y ≡ true

module _ (test : Entry → Bool) (up : IsUpward test) where
  All-passes :
      (x : Entry) (es : Set) (k : ℕ)
      → All (λ y. precedes x y ≡ true) es
      → test x ≡ true
      → passes test (get_elem? es k) ≡ true
  All-passes x [] k a p = refl
  All-passes x (y ∷ es) zero a p = up x y a.0 p
  All-passes x (y ∷ es) (suc k) a p = All-passes x es k a.1 p

  rank-passes :
      (es : Set)
      → IsSorted es
      → (k : ℕ) → k < length es
      → passes test (get_elem? es k) ≡ leb (rank test es) k
  unfolding rank
  rank-passes [] s k h = elim h [ ]
  rank-passes (x ∷ es) s zero h = ground arith
  rank-passes (x ∷ es) s (suc k) h = elim (Bool-cases (test x)) [
    | inl y ↦ ground (arith, y, All-passes x es k s.0 y)
    | inr n ↦ ground (arith, n, rank-passes es s.1 k)
  ]

  rank-le-length : (es : Set) → rank test es ≤ length es
  unfolding rank
  rank-le-length [] = omega arith
  rank-le-length (x ∷ es) = ground (arith, rank-le-length es)

  pub search-rank : (es : Set) → IsSorted es → search es test ≡ rank test es
  search-rank es s =
      sort_search_lem (λ i. passes test (get_elem? es i)) (length es) (rank test es)
        (rank-passes es s) (rank-le-length es)

pub not_below-IsUpward : (v a : Bytes) → IsUpward (not_below v a)
not_below-IsUpward v a x y h p = ground (arith, key_trans x.val x.alg y.val y.alg v a)

module _ (t : DigestText) where
  -- An entry holds the parts of a valid digest.
  abbrev pub Holds : Entry → Type 0
  Holds x = (t.validate x.digest ≡ true) × (x.alg ≡ t.algorithm x.digest) × (x.val ≡ t.hex x.digest)

  pub record IsValid (es : Set) : Type 0 where
    pub sorted : IsSorted es
    pub holds : All Holds es

  -- `Add` and `Remove` as one pass over the set.
  unfoldable pub put_in : Digest → Set → Set
  put_in d [] = entry_of t d ∷ []
  put_in d (x ∷ es) =
      let rest = put_in d es in
      if precedes x (entry_of t d)
      then x ∷ rest
      else if x.digest == d
      then x ∷ es
      else entry_of t d ∷ x ∷ es

  unfoldable pub take_out : Digest → Set → Set
  take_out d [] = []
  take_out d (x ∷ es) =
      let rest = take_out d es in
      if precedes x (entry_of t d) then x ∷ rest else if x.digest == d then es else x ∷ es

  add_at-cons :
      (d : Digest) (o : Option Entry) (r : ℕ) (x : Entry) (es : Set)
      → add_at t d o (suc r) (x ∷ es) ≡ x ∷ add_at t d o r es
  add_at-cons d none r x es = refl
  add_at-cons d (some y) r x es = ground arith

  remove_at-cons :
      (d : Digest) (o : Option Entry) (r : ℕ) (x : Entry) (es : Set)
      → remove_at t d o (suc r) (x ∷ es) ≡ x ∷ remove_at t d o r es
  remove_at-cons d none r x es = refl
  remove_at-cons d (some y) r x es = ground arith

  module _ (d : Digest) where
    abbrev at : Set → ℕ
    at es = rank (not_below (t.hex d) (t.algorithm d)) es

    add_rank : (es : Set) → add_at t d (get_elem? es (at es)) (at es) es ≡ put_in d es
    unfolding put_in rank
    add_rank [] = refl
    add_rank (x ∷ es) = elim (Bool-cases (precedes x (entry_of t d))) [
      | inl y ↦ rw y (add_at-cons d (get_elem? es (at es)) (at es) x es ∙ ap (◌∷◌ x) (add_rank es))
      | inr n ↦ rw n refl
    ]

    remove_rank : (es : Set) → remove_at t d (get_elem? es (at es)) (at es) es ≡ take_out d es
    unfolding take_out rank
    remove_rank [] = refl
    remove_rank (x ∷ es) = elim (Bool-cases (precedes x (entry_of t d))) [
      | inl y ↦
          rw y (remove_at-cons d (get_elem? es (at es)) (at es) x es ∙ ap (◌∷◌ x) (remove_rank es))
      | inr n ↦ rw n refl
    ]

    pub add_lem :
        (es : Set)
        → IsSorted es
        → add t d es ≡ (if t.validate d then (put_in d es, false) else (es, true))
    unfolding add
    add_lem es s =
        rw (search-rank _ (not_below-IsUpward (t.hex d) (t.algorithm d)) es s, add_rank es)
          (ground arith)

    pub remove_lem :
        (es : Set)
        → IsSorted es
        → remove t d es ≡ (if t.validate d then (take_out d es, false) else (es, true))
    unfolding remove
    remove_lem es s =
        rw (search-rank _ (not_below-IsUpward (t.hex d) (t.algorithm d)) es s, remove_rank es)
          (ground arith)
