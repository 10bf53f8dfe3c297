-- ===== src/Vacuum/Batches.antt =====
-- The batches of `RemoveManifests`.
use container_registry.Prelude.{
  ℕ, zero, suc, ◌+◌, ◌-◌, ◌≤◌, ◌<◌, ltb, true, false, List, [], ◌∷◌, ◌++◌, ◌≡◌, refl, sym, ap, ◌∙◌,
  ◌⊎◌, inl, inr, length, take, drop, All, take-append-drop, length-drop, Bool-cases, arith,
}
use container_registry.Offline.Mark.{ManifestDel}
use container_registry.Vacuum.{min, max_batch_size, batches_from, batches}

abbrev pub flatten {ℓ} : {A : Type ℓ} → List (List A) → List A
flatten [] = []
flatten (x ∷ xs) = x ++ flatten xs

drop-nil {ℓ} : {A : Type ℓ} (n : ℕ) → drop {A = A} n [] ≡ []
drop-nil zero = refl
drop-nil (suc n) = refl

drop-over {ℓ} : {A : Type ℓ} (n : ℕ) (xs : List A) → length xs ≤ n → drop n xs ≡ []
drop-over zero [] h = refl
drop-over zero (x ∷ xs) h = absurd (omega arith)
drop-over (suc n) [] h = refl
drop-over (suc n) (x ∷ xs) h = drop-over n xs (omega arith)

drop-drop {ℓ} : {A : Type ℓ} (m n : ℕ) (xs : List A) → drop n (drop m xs) ≡ drop (m + n) xs
drop-drop zero n xs = ap (λ k. drop k xs) (omega arith)
drop-drop (suc m) n [] = drop-nil n ∙ sym (drop-nil (suc m + n))
drop-drop (suc m) n (x ∷ xs) =
    let k : suc m + n ≡ suc (m + n) = omega arith in rw k (drop-drop m n xs)

take-drop_cover {ℓ} :
    {A : Type ℓ} (b n : ℕ) (xs : List A)
    → (b ≡ n) ⊎ ((b ≡ length xs) × (length xs ≤ n))
    → take b xs ++ drop n xs ≡ xs
take-drop_cover b n xs (inl e) = rw e (take-append-drop n xs)
take-drop_cover b n xs (inr (e, h)) =
    rw (drop-over n xs h, ← drop-over b xs (omega arith)) (take-append-drop b xs)

batch_size :
    (i total : ℕ)
    → i < total
    → (min (i + max_batch_size) total - i ≡ max_batch_size)
      ⊎ ((min (i + max_batch_size) total - i ≡ total - i) × (total - i ≤ max_batch_size))
batch_size i total h = elim (Bool-cases (ltb (i + max_batch_size) total)) [
  | inl less ↦ inl (ground arith)
  | inr more ↦ inr (ground arith, ground arith)
]

module _ (mm : List ManifestDel) (fuel i : ℕ) where
  batches_from-more :
      ltb i (length mm) ≡ true
      → batches_from mm (suc fuel) i
        ≡ take (min (i + max_batch_size) (length mm) - i) (drop i mm)
          ∷ batches_from mm fuel (i + max_batch_size)
  unfolding batches_from
  batches_from-more h = rw (h, batches_from)

  batches_from-over : ltb i (length mm) ≡ false → batches_from mm (suc fuel) i ≡ []
  unfolding batches_from
  batches_from-over h = rw (h, batches_from)

batches_from-zero : (mm : List ManifestDel) (i : ℕ) → batches_from mm 0 i ≡ []
unfolding batches_from
batches_from-zero mm i = refl

flatten-batches_from :
    (mm : List ManifestDel) (fuel i : ℕ)
    → length mm ≤ i + fuel
    → flatten (batches_from mm fuel i) ≡ drop i mm
flatten-batches_from mm zero i h = rw batches_from-zero (sym (drop-over i mm (omega arith)))
flatten-batches_from mm (suc fuel) i h = elim (Bool-cases (ltb i (length mm))) [
  | inl more ↦
      let rest = flatten-batches_from mm fuel (i + max_batch_size) (omega arith) in
      let b : ℕ = min (i + max_batch_size) (length mm) - i in
      let size : (b ≡ max_batch_size)
          ⊎ ((b ≡ length (drop i mm)) × (length (drop i mm) ≤ max_batch_size)) =
        rw length-drop (batch_size i (length mm) (ground arith)) in
      rw (batches_from-more mm fuel i more) (
        ap (λ r. take b (drop i mm) ++ r) (rest ∙ sym (drop-drop i max_batch_size mm))
        ∙ take-drop_cover b max_batch_size (drop i mm) size)
  | inr over ↦ rw (batches_from-over mm fuel i over) (sym (drop-over i mm (ground arith)))
]

abbrev IsBatch : List ManifestDel → Type 0
IsBatch b = (0 < length b) × (length b ≤ max_batch_size)

length-take_lem {ℓ} : {A : Type ℓ} (n : ℕ) (xs : List A) → n ≤ length xs → length (take n xs) ≡ n
length-take_lem zero xs h = refl
length-take_lem (suc n) [] h = absurd (omega arith)
length-take_lem (suc n) (x ∷ xs) h = ap suc (length-take_lem n xs (omega arith))

batches_from-IsBatch : (mm : List ManifestDel) (fuel i : ℕ) → All IsBatch (batches_from mm fuel i)
batches_from-IsBatch mm zero i = rw batches_from-zero tt
batches_from-IsBatch mm (suc fuel) i = elim (Bool-cases (ltb i (length mm))) [
  | inl more ↦
      let b : ℕ = min (i + max_batch_size) (length mm) - i in
      let within : (0 < b) × (b ≤ max_batch_size) × (b ≤ length mm - i) = ground arith in
      let fits : b ≤ length (drop i mm) = rw length-drop within.2 in
      rw (batches_from-more mm fuel i more) (
        rw (length-take_lem b (drop i mm) fits) (within.0, within.1),
        batches_from-IsBatch mm fuel (i + max_batch_size),
      )
  | inr over ↦ rw (batches_from-over mm fuel i over) tt
]

-- The batches together are the given manifests, in order and each once, and no batch is empty or
-- larger than 100. The loop needs no more rounds than there are manifests.
pub batches_partition :
    (mm : List ManifestDel) → (flatten (batches mm) ≡ mm) × All IsBatch (batches mm)
unfolding batches
batches_partition mm =
    (flatten-batches_from mm (length mm) 0 (omega arith), batches_from-IsBatch mm (length mm) 0)
