-- ===== src/Prelude/Sets.antt =====
-- Finite sets and maps of the source, as lists with a Boolean test of membership.
use mathlib.Core.Path.{◌≡◌, refl}
use mathlib.Core.Logic.{◌⊎◌, inl, inr}
use mathlib.Core.Option.{Option, none, some}
use mathlib.Core.Bool.{Bool, true, false, ◌||◌}
use mathlib.Core.List.{List, [], ◌∷◌, ◌++◌}
use native.Mathlib.Omega.{arith}
use container_registry.Prelude.Tests.{if◌then◌else◌, Bool-cases}
use container_registry.Prelude.Equality.{Eq, ◌==◌, ==_refl}
use container_registry.Prelude.Lists.{In, here, there, In-cons}

module _ {ℓ} {A : Type ℓ} ⦃e : Eq A⦄ where
  unfoldable pub contains : List A → A → Bool
  contains [] a = false
  contains (x ∷ xs) a = x == a || contains xs a

  -- `m[a] = struct{}{}`
  unfoldable pub insert : A → List A → List A
  insert a xs = if contains xs a then xs else a ∷ xs

  pub contains_of_In : {a : A} {xs : List A} → In a xs → contains xs a ≡ true
  unfolding contains
  contains_of_In {a} here = ground (arith, ==_refl a)
  contains_of_In (there m) = ground (arith, contains_of_In m)

  pub In-of_contains : (a : A) (xs : List A) → contains xs a ≡ true → In a xs
  unfolding contains
  In-of_contains a [] h = cc
  In-of_contains a (x ∷ xs) h = elim (Bool-cases (x == a)) [
    | inl same ↦ rw ((e.beq_iff x a).0 same) here
    | inr other ↦ there (In-of_contains a xs (ground arith))
  ]

  pub contains-insert :
      (a b : A) (xs : List A) → contains (insert a xs) b ≡ (a == b || contains xs b)
  unfolding insert
  contains-insert a b xs = elim (Bool-cases (contains xs a)) [
    | inl old ↦ elim (Bool-cases (a == b)) [
      | inl same ↦ rw old (ground (arith, e.beq_iff a b))
      | inr other ↦ rw (old, other)
    ]
    | inr new ↦ rw new (unfold contains in refl)
  ]

  pub contains-append :
      (xs ys : List A) (a : A) → contains (xs ++ ys) a ≡ (contains xs a || contains ys a)
  unfolding contains
  contains-append [] ys a = refl
  contains-append (x ∷ xs) ys a = ground (arith, contains-append xs ys a)

  pub In-insert : (a : A) {b : A} (xs : List A) → In b (insert a xs) → (b ≡ a) ⊎ In b xs
  unfolding insert
  In-insert a xs m = elim (Bool-cases (contains xs a)) [
    | inl old ↦ inr (rw old at m)
    | inr new ↦ In-cons (rw new at m)
  ]

  pub In-insert_self : (a : A) (xs : List A) → In a (insert a xs)
  unfolding insert
  In-insert_self a xs = elim (Bool-cases (contains xs a)) [
    | inl old ↦ rw old (In-of_contains a xs old)
    | inr new ↦ rw new here
  ]

  pub In-insert_there : (a : A) {b : A} {xs : List A} → In b xs → In b (insert a xs)
  unfolding insert
  In-insert_there a {xs = xs} m = elim (Bool-cases (contains xs a)) [
    | inl old ↦ rw old m
    | inr new ↦ rw new (there m)
  ]

  -- `for _, x := range xs { set.add(x) }`
  unfoldable pub insert_all : List A → List A → List A
  insert_all [] s = s
  insert_all (x ∷ xs) s = insert_all xs (insert x s)

  pub In-insert_all : {b : A} (xs s : List A) → In b (insert_all xs s) → In b xs ⊎ In b s
  unfolding insert_all
  In-insert_all [] s m = inr m
  In-insert_all (x ∷ xs) s m = elim (In-insert_all xs (insert x s) m) [
    | inl later ↦ inl (there later)
    | inr now ↦ elim (In-insert x s now) [ inl e ↦ inl (rw e here) | inr old ↦ inr old ]
  ]

  pub In-insert_all_old : {b : A} (xs : List A) {s : List A} → In b s → In b (insert_all xs s)
  unfolding insert_all
  In-insert_all_old [] m = m
  In-insert_all_old (x ∷ xs) m = In-insert_all_old xs (In-insert_there x m)

  pub In-insert_all_new : {b : A} (xs s : List A) → In b xs → In b (insert_all xs s)
  unfolding insert_all
  In-insert_all_new [] s m = elim m [ ]
  In-insert_all_new (x ∷ xs) s here = In-insert_all_old xs (In-insert_self x s)
  In-insert_all_new (x ∷ xs) s (there m) = In-insert_all_new xs (insert x s) m

-- Maps, as association lists with one entry for a key.
module _ {ℓ κ} {K : Type ℓ} {V : Type κ} ⦃e : Eq K⦄ where
  unfoldable pub lookup : K → List (K × V) → Option V
  lookup k [] = none
  lookup k ((j, v) ∷ m) = if j == k then some v else lookup k m

  unfoldable pub put : K → V → List (K × V) → List (K × V)
  put k v [] = (k, v) ∷ []
  put k v ((j, w) ∷ m) = if j == k then (k, v) ∷ m else (j, w) ∷ put k v m

  unfoldable pub remove : K → List (K × V) → List (K × V)
  remove k [] = []
  remove k ((j, w) ∷ m) = let rest = remove k m in if j == k then rest else (j, w) ∷ rest

  pub lookup-put :
      (k j : K) (v : V) (m : List (K × V))
      → lookup j (put k v m) ≡ (if k == j then some v else lookup j m)
  unfolding lookup put
  lookup-put k j v [] = refl
  lookup-put k j v ((i, w) ∷ m) =
      ground (arith, e.beq_iff k j, e.beq_iff i k, e.beq_iff i j, lookup-put k j v m)

  pub lookup-remove :
      (k j : K) (m : List (K × V)) → lookup j (remove k m) ≡ (if k == j then none else lookup j m)
  unfolding lookup remove
  lookup-remove k j [] = ground arith
  lookup-remove k j ((i, w) ∷ m) =
      ground (arith, e.beq_iff k j, e.beq_iff i k, e.beq_iff i j, lookup-remove k j m)

  pub In-put :
      (k : K) (v : V) {q : K × V} (m : List (K × V)) → In q (put k v m) → (q ≡ (k, v)) ⊎ In q m
  unfolding put
  In-put k v [] h = elim (In-cons h) [ inl p ↦ inl p | inr i ↦ inr i ]
  In-put k v ((j, w) ∷ m) h = elim (Bool-cases (j == k)) [
    | inl same ↦ elim (In-cons (rw same at h)) [ inl p ↦ inl p | inr i ↦ inr (there i) ]
    | inr other ↦ elim (In-cons (rw other at h)) [
      | inl p ↦ inr (rw p here)
      | inr i ↦ elim (In-put k v m i) [ inl p ↦ inl p | inr i' ↦ inr (there i') ]
    ]
  ]

  pub In-put_self : (k : K) (v : V) (m : List (K × V)) → In (k, v) (put k v m)
  unfolding put
  In-put_self k v [] = here
  In-put_self k v ((j, w) ∷ m) = elim (Bool-cases (j == k)) [
    | inl same ↦ rw same here
    | inr other ↦ rw other (there (In-put_self k v m))
  ]

  pub In-put_ne :
      (k : K) (v : V) {t : K} {d : V} (m : List (K × V))
      → (k == t) ≡ false
      → In (t, d) m
      → In (t, d) (put k v m)
  unfolding put
  In-put_ne k v [] ne i = elim i [ ]
  In-put_ne k v ((j, w) ∷ m) ne here = ground (arith, e.beq_iff k j, e.beq_iff j k, In-first)
    where
      In-first : In (j, w) ((j, w) ∷ put k v m)
      In-first = here
  In-put_ne k v ((j, w) ∷ m) ne (there i) = elim (Bool-cases (j == k)) [
    | inl same ↦ rw same (there i)
    | inr other ↦ rw other (there (In-put_ne k v m ne i))
  ]
