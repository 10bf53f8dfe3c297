-- ===== src/Online/Backoff.antt =====
-- `exponentialBackoff` of registry/gc/worker/worker.go. Durations are int64 nanoseconds.
use container_registry.Prelude.{
  ℕ, zero, suc, ◌*◌, ◌^◌, ◌<◌, ltb, nat_beq, Bool, true, false, ◌&&◌, ◌||◌, if◌then◌else◌, ◌≡◌, ◌≢◌,
  refl, arith, Bool-cases, inl, inr, nat_eq,
}
use container_registry.Prelude.Int.{ℤ, pos, negsuc, ltb_ℤ, int64}

abbrev pub base : ℕ
base = 5 * 60 * 1_000_000_000

abbrev pub max_backoff : ℕ
max_backoff = 24 * 60 * 60 * 1_000_000_000

unfoldable pub exponential_backoff : ℤ → ℤ
exponential_backoff (negsuc n) = pos base
exponential_backoff (pos i) =
    if ltb 30 i
    then pos max_backoff
    else (let backoff = int64 (base * 2 ^ i) in
        if ltb_ℤ (pos max_backoff) backoff then pos max_backoff else backoff)

abbrev pub is_negative : ℤ → Bool
is_negative (pos n) = false
is_negative (negsuc n) = true

-- A duration that the comments ask for: doubled for each review, at most a day.
abbrev pub clamped : ℕ → ℤ
clamped i = if ltb max_backoff (base * 2 ^ i) then pos max_backoff else pos (base * 2 ^ i)

abbrev beq_ℤ : ℤ → ℤ → Bool
beq_ℤ (pos a) (pos b) = nat_beq a b
beq_ℤ (negsuc a) (negsuc b) = nat_beq a b
beq_ℤ _ _ = false

beq_ℤ-sound : (a b : ℤ) → beq_ℤ a b ≡ true → a ≡ b
beq_ℤ-sound (pos a) (pos b) h = ground arith
beq_ℤ-sound (negsuc a) (negsuc b) h = ground arith
beq_ℤ-sound (pos a) (negsuc b) h = cc h
beq_ℤ-sound (negsuc a) (pos b) h = cc h

-- A test at each of the counts below a bound.
holds_below : (ℕ → Bool) → ℕ → Bool
holds_below test zero = true
holds_below test (suc k) = holds_below test k && test k

holds_below_lem :
    (test : ℕ → Bool) (k : ℕ) → holds_below test k ≡ true → (i : ℕ) → i < k → test i ≡ true
unfolding holds_below
holds_below_lem test zero all i below = elim below [ ]
holds_below_lem test (suc k) all i below = ground (arith, holds_below_lem test k (ground arith) i)

overflows : ℕ → Bool
overflows i = nat_beq i 25 || nat_beq i 29

table : holds_below (λ i. overflows i || beq_ℤ (exponential_backoff (pos i)) (clamped i)) 31 ≡ true
unfolding holds_below overflows exponential_backoff
table = refl

sign_table :
    holds_below
      (λ i.
        nat_beq
          (if is_negative (exponential_backoff (pos i)) then 1 else 0)
          (if overflows i then 1 else 0))
      31
    ≡ true
unfolding holds_below overflows exponential_backoff
sign_table = refl

late : (i : ℕ) → 30 < i → exponential_backoff (pos i) ≡ pos max_backoff
unfolding exponential_backoff
late i h = ground arith

-- A review count has a negative backoff exactly if it is 25 or 29: there the product wraps around
-- below zero, so it is not above the maximum either.
pub backoff_negative :
    (i : ℕ) → is_negative (exponential_backoff (pos i)) ≡ (nat_beq i 25 || nat_beq i 29)
backoff_negative i = elim (Bool-cases (ltb 30 i)) [
  | inl more ↦ rw (late i (ground arith)) (ground arith)
  | inr less ↦ unfold overflows in ground (arith, holds_below_lem _ 31 sign_table i (ground arith))
]

-- Up to 30 reviews, and but for those two counts, the backoff doubles up to a day; later it is a day.
pub backoff_clamped :
    (i : ℕ)
    → i ≢ 25
    → i ≢ 29
    → exponential_backoff (pos i) ≡ (if ltb 30 i then pos max_backoff else clamped i)
backoff_clamped i n25 n29 = elim (Bool-cases (ltb 30 i)) [
  | inl more ↦ rw (late i (ground arith), more)
  | inr less ↦ rw less (
      beq_ℤ-sound _ _
        (unfold overflows in ground (arith, holds_below_lem _ 31 table i (ground arith))))
]
