-- ===== src/Storage/Catalog/Ordered.antt =====
-- The order of paths, element by element.
use container_registry.Prelude.{
  ℕ, ◌==◌, ltb, Bool, true, false, if◌then◌else◌, List, ◌∷◌, [], ◌≡◌, ◌≢◌, refl, sym, ◌∙◌, nat_eq,
  arith, Bool-cases, inl, inr,
}
use container_registry.Prelude.Bytes.{Bytes, bytes_eq, bytes_beq_iff, less, Lacks}
use container_registry.Storage.Join.{split, push}
use container_registry.Storage.Join.Laws.{split-nonempty}
use container_registry.Storage.Catalog.{compare_replace, less_path}

-- The first element in which two lists differ decides, and a list is below what it begins.
unfoldable pub less_elements : List Bytes → List Bytes → Bool
less_elements [] [] = false
less_elements [] (d ∷ ds) = true
less_elements (c ∷ cs) [] = false
less_elements (c ∷ cs) (d ∷ ds) =
    let rest = less_elements cs ds in if c == d then rest else less c d

nothing_below : (xs : List Bytes) → xs ≢ [] → less_elements [] xs ≡ true
unfolding less_elements
nothing_below [] n = absurd (n refl)
nothing_below (x ∷ xs) n = refl

below_nothing : (xs : List Bytes) → less_elements xs [] ≡ false
unfolding less_elements
below_nothing [] = refl
below_nothing (x ∷ xs) = refl

push-same :
    (c : ℕ) (xs ys : List Bytes)
    → xs ≢ []
    → ys ≢ []
    → less_elements (push c xs) (push c ys) ≡ less_elements xs ys
unfolding less_elements less
push-same c [] ys n m = absurd (n refl)
push-same c (x ∷ xs) [] n m = absurd (m refl)
push-same c (x ∷ xs) (y ∷ ys) n m = ground (arith, bytes_beq_iff (c ∷ x) (c ∷ y), bytes_beq_iff x y)

push-differ :
    (c d : ℕ) (xs ys : List Bytes)
    → (c == d) ≡ false
    → xs ≢ []
    → ys ≢ []
    → less_elements (push c xs) (push d ys) ≡ ltb c d
unfolding less_elements less
push-differ c d [] ys e n m = absurd (n refl)
push-differ c d (x ∷ xs) [] e n m = absurd (m refl)
push-differ c d (x ∷ xs) (y ∷ ys) e n m = ground (arith, e)

push-first : (c : ℕ) (xs ys : List Bytes) → less_elements (push c xs) ([] ∷ ys) ≡ false
unfolding less_elements less
push-first c [] ys = refl
push-first c (x ∷ xs) ys = refl

first-push : (c : ℕ) (xs ys : List Bytes) → less_elements ([] ∷ xs) (push c ys) ≡ true
unfolding less_elements less
first-push c xs [] = refl
first-push c xs (y ∷ ys) = refl

-- Without a zero byte, `lessPath` compares the elements of two paths one by one.
pub less_path-elements :
    (a b : Bytes) → Lacks 0 a → Lacks 0 b → less_path a b ≡ less_elements (split a) (split b)
unfolding less_path compare_replace split less_elements
less_path-elements [] [] ha hb = refl
less_path-elements [] (d ∷ t) ha hb = elim (Bool-cases (d == b'/')) [
  | inl slash ↦ rw slash (sym (nothing_below (split t) (split-nonempty t)))
  | inr other ↦ rw other (sym (first-push d [] (split t)))
]
less_path-elements (c ∷ s) [] ha hb = elim (Bool-cases (c == b'/')) [
  | inl slash ↦ rw slash (sym (below_nothing (split s)))
  | inr other ↦ rw other (sym (push-first c (split s) []))
]
less_path-elements (c ∷ s) (d ∷ t) ha hb =
    let rest = less_path-elements s t ha.1 hb.1 in
    elim (Bool-cases (c == b'/')) [
      | inl slash ↦ elim (Bool-cases (d == b'/')) [
        | inl slash' ↦ rw (slash, slash') rest
        | inr other' ↦
            let first = first-push d (split s) (split t) in
            let zero_below : ltb 0 d ≡ true = ground (arith, hb.0) in
            rw (slash, other', zero_below, first) refl
      ]
      | inr other ↦ elim (Bool-cases (d == b'/')) [
        | inl slash' ↦
            let first = push-first c (split s) (split t) in
            let zero_below : ltb 0 c ≡ true = ground (arith, ha.0) in
            let not_below : ltb c 0 ≡ false = ground arith in
            rw (other, slash', not_below, zero_below, first) refl
        | inr other' ↦ elim (Bool-cases (c == d)) [
          | inl equal ↦
              let heads : c ≡ d = ground (arith, equal) in
              let none_below : ltb d d ≡ false = ground arith in
              rw heads (
                rw (rw heads at other, none_below)
                  (rest
                    ∙ sym (push-same d (split s) (split t) (split-nonempty s) (split-nonempty t))))
          | inr differ ↦
              let tails =
                push-differ c d (split s) (split t) differ (split-nonempty s) (split-nonempty t) in
              rw (other, other', tails) (ground (arith, differ))
        ]
      ]
    ]
