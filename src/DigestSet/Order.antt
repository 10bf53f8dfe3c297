-- ===== src/DigestSet/Order.antt =====
-- The order of texts, and of the keys of two entries.
use container_registry.Prelude.{true, false, [], ◌∷◌, ◌≡◌, refl, inl, inr, arith, Bool-cases}
use container_registry.Prelude.Bytes.{Bytes, bytes_eq, bytes_beq_iff, less, is_prefix}
use container_registry.DigestSet.{less_key}

less_irrefl : (s : Bytes) → less s s ≡ false
unfolding less
less_irrefl [] = refl
less_irrefl (c ∷ s) = ground (arith, less_irrefl s)

less_trans : (s t u : Bytes) → less s t ≡ true → less t u ≡ true → less s u ≡ true
unfolding less
less_trans [] [] u h k = cc
less_trans [] (d ∷ t) [] h k = cc k
less_trans [] (d ∷ t) (e ∷ u) h k = refl
less_trans (c ∷ s) [] u h k = cc h
less_trans (c ∷ s) (d ∷ t) [] h k = cc k
less_trans (c ∷ s) (d ∷ t) (e ∷ u) h k = ground (arith, less_trans s t u)

less_total : (s t : Bytes) → less s t ≡ false → less t s ≡ false → s ≡ t
unfolding less
less_total [] [] h k = refl
less_total [] (d ∷ t) h k = cc h
less_total (c ∷ s) [] h k = cc k
less_total (c ∷ s) (d ∷ t) h k = ground (arith, less_total s t)

-- A text is not below its prefix.
pub is_prefix-less : (p s : Bytes) → is_prefix p s ≡ true → less s p ≡ false
unfolding less is_prefix
is_prefix-less [] [] h = refl
is_prefix-less [] (d ∷ s) h = refl
is_prefix-less (c ∷ p) [] h = cc h
is_prefix-less (c ∷ p) (d ∷ s) h = ground (arith, is_prefix-less p s)

-- Behind a text that is not below `p` and does not begin with it, no text begins with it.
pub is_prefix_past :
    (p s u : Bytes)
    → less s p ≡ false
    → is_prefix p s ≡ false
    → less u s ≡ false
    → is_prefix p u ≡ false
unfolding less is_prefix
is_prefix_past [] s u h n k = cc n
is_prefix_past (c ∷ p) [] u h n k = cc h
is_prefix_past (c ∷ p) (d ∷ s) [] h n k = refl
is_prefix_past (c ∷ p) (d ∷ s) (e ∷ u) h n k = ground (arith, is_prefix_past p s u)

pub less_asym : (s t : Bytes) → less s t ≡ true → less t s ≡ false
less_asym s t h = elim (Bool-cases (less t s)) [
  | inl k ↦ cc (less_irrefl s, less_trans s t s h k)
  | inr k ↦ k
]

-- A text that is not below another stays so under what is below that one.
pub not_less_trans : (s t u : Bytes) → less t s ≡ false → less u t ≡ false → less u s ≡ false
not_less_trans s t u h k = ground (arith, less_trans u s t, less_total s t, less_asym u s)

pub key_irrefl : (v a : Bytes) → less_key v a v a ≡ false
unfolding less_key
key_irrefl v a = ground (arith, bytes_beq_iff v v, less_irrefl a)

module _ (v a w b : Bytes) where
  pub key_total : less_key v a w b ≡ false → less_key w b v a ≡ false → (v ≡ w) × (a ≡ b)
  unfolding less_key
  key_total h k =
      ground (arith, bytes_beq_iff v w, bytes_beq_iff w v, less_total v w, less_total a b)

pub key_trans :
    (v a w b x c : Bytes)
    → less_key v a w b ≡ true
    → less_key w b x c ≡ true
    → less_key v a x c ≡ true
unfolding less_key
key_trans v a w b x c h k = ground (
  arith,
  bytes_beq_iff v w,
  bytes_beq_iff w x,
  bytes_beq_iff v x,
  less_trans v w x,
  less_trans a b c,
  less_irrefl v,
  less_irrefl w,
  less_asym v w,
)

-- The first half of the key does not fall along the order.
pub key-less : (v a w b : Bytes) → less_key v a w b ≡ true → less w v ≡ false
unfolding less_key
key-less v a w b h = ground (arith, bytes_beq_iff v w, less_irrefl v, less_asym v w)
