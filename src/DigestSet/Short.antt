-- ===== src/DigestSet/Short.antt =====
-- Lookups by a text that is no digest, by a whole digest, and by an algorithm and a short text.
use container_registry.Prelude.{
  Bool, true, false, if◌then◌else◌, Result, ok, err, List, [], ◌∷◌, some, ◌≡◌, ◌≢◌, refl, sym, ap,
  ◌∙◌, arith, Bool-cases, inl, inr, All, length, get_elem?, ◌==◌, nat_eq, string_eq,
}
use container_registry.Prelude.Bytes.{Bytes, bytes_eq, bytes_beq_iff, codes, less, is_prefix}
use container_registry.Prelude.Sets.{contains}
use container_registry.Offline.Tags.{Digest}
use container_registry.Vacuum.{DigestText}
use container_registry.DigestSet.Order.{
  is_prefix-less, is_prefix_past, not_less_trans, key-less, key_irrefl,
}
use container_registry.DigestSet.Sorted.{
  IsSorted, IsValid, Holds, IsUpward, rank, search-rank, not_below-IsUpward,
}
use container_registry.DigestSet.Changed.{above, absent, precedes-All}
use container_registry.DigestSet.{
  Entry, Set, Missing, not_found, ambiguous, precedes, not_below, not_below_text, check_short_match,
  entry_of, all, lookup_at, lookup_from, lookup,
}

-- The digests whose hexadecimal text begins with `s`.
pub beginning : Bytes → Set → List Digest
beginning s [] = []
beginning s (x ∷ es) =
    let rest = beginning s es in if is_prefix s x.val then x.digest ∷ rest else rest

-- The digests that match an algorithm and a short text.
pub matching : Bytes → Bytes → Set → List Digest
matching alg hex [] = []
matching alg hex (x ∷ es) =
    let rest = matching alg hex es in
    if check_short_match x.alg x.val alg hex then x.digest ∷ rest else rest

-- The only one of some candidates.
abbrev pub only : List Digest → Result Missing Digest
only [] = err not_found
only (d ∷ []) = ok d
only (d ∷ c ∷ ds) = err ambiguous

is_prefix-length : (p s : Bytes) → length s ≡ length p → (s == p) ≡ is_prefix p s
unfolding is_prefix
is_prefix-length [] [] h = refl
is_prefix-length [] (d ∷ s) h = absurd (omega (arith, h))
is_prefix-length (c ∷ p) [] h = absurd (omega (arith, h))
is_prefix-length (c ∷ p) (d ∷ s) h = ground (arith, is_prefix-length p s)

-- Without an algorithm, a short match is a prefix.
short_match-prefix : (a v s : Bytes) → check_short_match a v [] s ≡ is_prefix s v
unfolding check_short_match
short_match-prefix a v s = ground (arith, is_prefix-length s v)

module _ (s : Bytes) where
  text-IsUpward : IsUpward (not_below_text s)
  text-IsUpward x y h p =
      ground (arith, not_less_trans s x.val y.val, key-less x.val x.alg y.val y.alg h)

  none_past :
      (x : Entry) (es : Set)
      → less x.val s ≡ false
      → is_prefix s x.val ≡ false
      → All (λ y. precedes x y ≡ true) es
      → beginning s es ≡ []
  unfolding beginning
  none_past x [] h n a = refl
  none_past x (y ∷ es) h n a = ground (
    arith,
    none_past x es h n a.1,
    is_prefix_past s x.val y.val h n (key-less x.val x.alg y.val y.alg a.0),
  )

  lookup_first :
      (x : Entry) (es : Set)
      → IsSorted (x ∷ es)
      → x.alg ≢ []
      → less x.val s ≡ false
      → lookup_at [] s (some x) (get_elem? es 0) ≡ only (beginning s (x ∷ es))
  unfolding beginning
  lookup_first x [] h n l = ground (arith, short_match-prefix x.alg x.val s, bytes_beq_iff x.alg [])
  lookup_first x (y ∷ es) h n l =
      let above = key-less x.val x.alg y.val y.alg h.0.0 in
      elim (Bool-cases (is_prefix s x.val)) [
        | inr m ↦
            let none_first = is_prefix_past s x.val y.val l m above in
            ground
              (arith, m, none_first, short_match-prefix x.alg x.val s, none_past x es l m h.0.1)
        | inl p ↦ elim (Bool-cases (is_prefix s y.val)) [
          | inl q ↦ ground (
            arith,
            p,
            q,
            short_match-prefix x.alg x.val s,
            short_match-prefix y.alg y.val s,
            bytes_beq_iff x.alg [],
          )
          | inr m ↦
              let past = none_past y es (not_less_trans s x.val y.val l above) m h.1.0 in
              ground (
                arith,
                p,
                m,
                past,
                short_match-prefix x.alg x.val s,
                short_match-prefix y.alg y.val s,
                bytes_beq_iff x.alg [],
              )
        ]
      ]

  lookup_rank :
      (es : Set)
      → IsSorted es
      → All (λ x. x.alg ≢ []) es
      → lookup_from es (rank (not_below_text s) es) [] s ≡ only (beginning s es)
  unfolding rank beginning
  lookup_rank [] h n = refl
  lookup_rank (x ∷ es) h n = elim (Bool-cases (less x.val s)) [
    | inl y ↦
        let skip : is_prefix s x.val ≡ false = ground (arith, y, is_prefix-less s x.val) in
        rw (y, skip) (lookup_rank es h.1 n.1)
    | inr q ↦ rw q (lookup_first x es h n.0 q)
  ]

module _ (t : DigestText) (invalid_format : Digest → Bool) where
  algs_named : (es : Set) → All (Holds t) es → All (λ x. x.alg ≢ []) es
  algs_named [] h = tt
  algs_named (x ∷ es) h = ((λ e. t.named x.digest h.0.0 (sym h.0.1 ∙ e)), algs_named es h.1)

  -- A text that is no digest is looked up as the only member whose hexadecimal text begins with it:
  -- without one there is none, and with more it is ambiguous.
  pub lookup-only :
      (d : Digest) (es : Set)
      → IsValid t es
      → invalid_format d ≡ true
      → lookup t invalid_format d es ≡ only (beginning (codes d) es)
  unfolding lookup
  lookup-only d es h i =
      rw (i, search-rank (not_below_text (codes d)) (text-IsUpward (codes d)) es h.sorted)
        (lookup_rank (codes d) es h.sorted (algs_named es h.holds))

  exact_match : (a v : Bytes) → check_short_match a v a v ≡ true
  unfolding check_short_match
  exact_match a v = ground (arith, bytes_beq_iff a a, bytes_beq_iff v v)

  whole_rank :
      (d : Digest) (es : Set)
      → t.validate d ≡ true
      → IsSorted es
      → All (Holds t) es
      → contains (all es) d ≡ true
      → lookup_from es (rank (not_below (t.hex d) (t.algorithm d)) es) (t.algorithm d) (t.hex d)
        ≡ ok d
  unfolding rank contains
  whole_rank d [] v s h m = cc m
  whole_rank d (x ∷ es) v s h m = elim (Bool-cases (x.digest == d)) [
    | inl y ↦
        let same = (string_eq.beq_iff x.digest d).0 y in
        let val : x.val ≡ t.hex d = h.0.2 ∙ ap t.hex same in
        let alg : x.alg ≡ t.algorithm d = h.0.1 ∙ ap t.algorithm same in
        ground (
          arith,
          same,
          val,
          alg,
          key_irrefl (t.hex d) (t.algorithm d),
          exact_match (t.algorithm d) (t.hex d),
          bytes_beq_iff x.alg (t.algorithm d),
          bytes_beq_iff x.val (t.hex d),
        )
    | inr n ↦ elim (Bool-cases (precedes x (entry_of t d))) [
      | inl p ↦ rw p (whole_rank d es v s.1 h.1 (ground arith))
      | inr p ↦
          let q = above t d v x h.0 p n in
          let rest = absent t d v es (precedes-All t (entry_of t d) x es q s.0) h.1 in ground arith
    ]
  ]

  -- Each member is found by its whole text.
  pub lookup-member :
      (d : Digest) (es : Set)
      → IsValid t es
      → invalid_format d ≡ false
      → t.validate d ≡ true
      → contains (all es) d ≡ true
      → lookup t invalid_format d es ≡ ok d
  unfolding lookup
  lookup-member d es h i v m =
      rw
        (
          i,
          search-rank (not_below (t.hex d) (t.algorithm d))
              (not_below-IsUpward (t.hex d) (t.algorithm d)) es h.sorted,
        )
        (whole_rank d es v h.sorted h.holds m)

  -- Under an algorithm the lookup only sees the first entry that is not below: if that one is of
  -- another algorithm, the only match behind it is not found.
  pub lookup_hidden :
      (d : Digest) (x y : Entry)
      → invalid_format d ≡ false
      → precedes x y ≡ true
      → not_below (t.hex d) (t.algorithm d) x ≡ true
      → check_short_match x.alg x.val (t.algorithm d) (t.hex d) ≡ false
      → check_short_match y.alg y.val (t.algorithm d) (t.hex d) ≡ true
      → (lookup t invalid_format d (x ∷ y ∷ []) ≡ err not_found)
        × (only (matching (t.algorithm d) (t.hex d) (x ∷ y ∷ [])) ≡ ok y.digest)
  unfolding lookup matching rank
  lookup_hidden d x y i p behind other same = (
    rw
        (
          i,
          search-rank (not_below (t.hex d) (t.algorithm d))
              (not_below-IsUpward (t.hex d) (t.algorithm d)) (x ∷ y ∷ []) ((p, tt), (tt, tt)),
        )
        (ground arith),
    ground arith,
  )
