-- ===== src/DigestSet/Changed.antt =====
-- What putting an entry in and taking one out keep.
use container_registry.Prelude.{
  true, false, not, ◌&&◌, ◌||◌, [], ◌∷◌, ◌≡◌, refl, sym, ap, ◌∙◌, arith, Bool-cases, inl, inr, All,
  ◌==◌, string_eq,
}
use container_registry.Prelude.Sets.{contains}
use container_registry.Offline.Tags.{Digest}
use container_registry.Vacuum.{DigestText}
use container_registry.DigestSet.Order.{key_irrefl, key_total, key_trans}
use container_registry.DigestSet.Sorted.{IsSorted, IsValid, Holds, put_in, take_out}
use container_registry.DigestSet.{Entry, Set, precedes, entry_of, all}

module _ (t : DigestText) where
  All-put_in :
      (P : Entry → Type 0) (d : Digest) (es : Set)
      → P (entry_of t d)
      → All P es
      → All P (put_in t d es)
  unfolding put_in
  All-put_in P d [] p a = (p, tt)
  All-put_in P d (x ∷ es) p a = ground (arith, All-put_in P d es p)

  All-take_out : (P : Entry → Type 0) (d : Digest) (es : Set) → All P es → All P (take_out t d es)
  unfolding take_out
  All-take_out P d [] a = tt
  All-take_out P d (x ∷ es) a = ground (arith, All-take_out P d es)

  pub precedes-All :
      (e x : Entry) (es : Set)
      → precedes e x ≡ true
      → All (λ y. precedes x y ≡ true) es
      → All (λ y. precedes e y ≡ true) es
  precedes-All e x [] p a = tt
  precedes-All e x (y ∷ es) p a =
      (key_trans e.val e.alg x.val x.alg y.val y.alg p a.0, precedes-All e x es p a.1)

  module _ (d : Digest) (v : t.validate d ≡ true) where
    -- An entry that is neither below the digest nor the digest itself is above it.
    pub above :
        (x : Entry)
        → Holds t x
        → precedes x (entry_of t d) ≡ false
        → (x.digest == d) ≡ false
        → precedes (entry_of t d) x ≡ true
    above x h p n = elim (Bool-cases (precedes (entry_of t d) x)) [
      | inl y ↦ y
      | inr q ↦
          let (vals, algs) = key_total x.val x.alg (t.hex d) (t.algorithm d) p q in
          let same : x.digest ≡ d =
            t.two_parts x.digest d h.0 v (sym h.1 ∙ algs) (sym h.2 ∙ vals) in
          cc (n, (string_eq.beq_iff x.digest d).1 same)
    ]

    -- An entry that is above the digest is another one, and so is one that is below it.
    above_other :
        (x : Entry) → Holds t x → precedes (entry_of t d) x ≡ true → (x.digest == d) ≡ false
    above_other x h p = elim (Bool-cases (x.digest == d)) [
      | inr n ↦ n
      | inl y ↦
          let same = (string_eq.beq_iff x.digest d).0 y in
          cc (p, h.1, h.2, ap t.hex same, ap t.algorithm same, key_irrefl x.val x.alg)
    ]

    below_other :
        (x : Entry) → Holds t x → precedes x (entry_of t d) ≡ true → (x.digest == d) ≡ false
    below_other x h p = elim (Bool-cases (x.digest == d)) [
      | inr n ↦ n
      | inl y ↦
          let same = (string_eq.beq_iff x.digest d).0 y in
          cc (p, h.1, h.2, ap t.hex same, ap t.algorithm same, key_irrefl x.val x.alg)
    ]

    pub absent :
        (es : Set)
        → All (λ y. precedes (entry_of t d) y ≡ true) es
        → All (Holds t) es
        → contains (all es) d ≡ false
    unfolding contains
    absent [] a h = refl
    absent (x ∷ es) a h = ground (arith, above_other x h.0 a.0, absent es a.1 h.1)

    -- What is above an entry of the digest is above the digest.
    above_rest :
        (x : Entry) (es : Set)
        → All (λ y. precedes x y ≡ true) es
        → Holds t x
        → x.digest ≡ d
        → All (λ y. precedes (entry_of t d) y ≡ true) es
    above_rest x [] a h same = tt
    above_rest x (y ∷ es) a h same =
        (cc (a.0, h.1, h.2, ap t.hex same, ap t.algorithm same), above_rest x es a.1 h same)

    put_in-IsSorted : (es : Set) → IsSorted es → All (Holds t) es → IsSorted (put_in t d es)
    unfolding put_in
    put_in-IsSorted [] s h = (tt, tt)
    put_in-IsSorted (x ∷ es) s h = elim (Bool-cases (precedes x (entry_of t d))) [
      | inl p ↦ rw p (All-put_in (λ y. precedes x y ≡ true) d es p s.0, put_in-IsSorted es s.1 h.1)
      | inr p ↦ elim (Bool-cases (x.digest == d)) [
        | inl y ↦ rw (p, y) s
        | inr n ↦
            let q = above x h.0 p n in rw (p, n) ((q, precedes-All (entry_of t d) x es q s.0), s)
      ]
    ]

    take_out-IsSorted : (es : Set) → IsSorted es → IsSorted (take_out t d es)
    unfolding take_out
    take_out-IsSorted [] s = tt
    take_out-IsSorted (x ∷ es) s =
        ground (arith, All-take_out (λ y. precedes x y ≡ true) d es, take_out-IsSorted es)

    pub contains-put_in :
        (es : Set) (a : Digest) → contains (all (put_in t d es)) a ≡ (d == a || contains (all es) a)
    unfolding put_in contains
    contains-put_in [] a = refl
    contains-put_in (x ∷ es) a = ground (
      arith,
      contains-put_in es a,
      string_eq.beq_iff x.digest d,
      string_eq.beq_iff x.digest a,
      string_eq.beq_iff d a,
    )

    pub contains-take_out :
        (es : Set) (a : Digest)
        → IsSorted es
        → All (Holds t) es
        → contains (all (take_out t d es)) a ≡ (not (d == a) && contains (all es) a)
    unfolding take_out contains
    contains-take_out [] a s h = ground arith
    contains-take_out (x ∷ es) a s h = elim (Bool-cases (precedes x (entry_of t d))) [
      | inl p ↦
          let other = below_other x h.0 p in
          rw p (
            ground (
              arith,
              contains-take_out es a s.1 h.1,
              other,
              string_eq.beq_iff x.digest a,
              string_eq.beq_iff d a,
              string_eq.beq_iff x.digest d,
            ))
      | inr p ↦ elim (Bool-cases (x.digest == d)) [
        | inl y ↦
            let same = (string_eq.beq_iff x.digest d).0 y in
            let rest_absent : contains (all es) d ≡ false =
              absent es (above_rest x es s.0 h.0 same) h.1 in
            rw (p, y)
              (ground
                (arith, same, rest_absent, string_eq.beq_iff x.digest a, string_eq.beq_iff d a))
        | inr n ↦
            let q = above x h.0 p n in
            let rest_absent = absent (x ∷ es) (q, precedes-All (entry_of t d) x es q s.0) h in
            rw (p, n) (ground (arith, n, rest_absent, string_eq.beq_iff d a))
      ]
    ]

    pub put_in-IsValid : (es : Set) → IsValid t es → IsValid t (put_in t d es)
    put_in-IsValid es h = record {
      sorted = put_in-IsSorted es h.sorted h.holds;
      holds = All-put_in (Holds t) d es (v, refl, refl) h.holds;
    }

    pub take_out-IsValid : (es : Set) → IsValid t es → IsValid t (take_out t d es)
    take_out-IsValid es h = record {
      sorted = take_out-IsSorted es h.sorted;
      holds = All-take_out (Holds t) d es h.holds;
    }
