-- ===== src/Token/Time.antt =====
-- What `Verify` of registry/auth/token/token.go uses of Go's package time, and the order of the times
-- that it compares.
use container_registry.Prelude.{
  ℕ, suc, ◌+◌, ◌-◌, ◌*◌, ◌^◌, ◌%◌, ◌/◌, ◌≤◌, ◌<◌, ltb, Bool, false, ◌&&◌, ◌||◌, if◌then◌else◌, ◌≡◌,
  ◌⊎◌, ◌==◌, nat_eq, inl, inr, arith, Bool-cases, refl,
}
use container_registry.Prelude.Int.{ℤ, pos, negsuc}

-- `time.Time`: the seconds since the year 1 are an int64, here with 2 ^ 63 added.
pub record Time : Type 0 where
  pub seconds : ℕ
  pub nanoseconds : ℕ

-- `Leeway`, in seconds
abbrev pub leeway : ℕ
leeway = 60

-- the seconds from the year 1 to 1970
abbrev pub year_one : ℕ
year_one = 62_135_596_800

-- `time.Unix` of an int64: the addition wraps around; a negative one never does.
abbrev since_year_one : ℤ → ℕ
since_year_one (pos n) = (n + (year_one + 2 ^ 63)) % 2 ^ 64
since_year_one (negsuc n) = year_one + 2 ^ 63 - suc n

unfoldable pub unix : ℤ → Time
unix s = record { seconds = since_year_one s; nanoseconds = 0 }

-- `time.Now`, in nanoseconds since 1970
unfoldable pub clock : ℕ → Time
clock now = record {
  seconds = now / 1_000_000_000 + (year_one + 2 ^ 63);
  nanoseconds = now % 1_000_000_000;
}

-- `Add` of a number of seconds, or of its negative, which stops at the ends of int64
unfoldable pub add : ℕ → Time → Time
add d t = record t { seconds = if ltb (t.seconds + d) (2 ^ 64) then t.seconds + d else 2 ^ 64 - 1 }

unfoldable pub subtract : ℕ → Time → Time
subtract d t = record t { seconds = if ltb t.seconds d then 1 else t.seconds - d }

unfoldable pub is_after : Time → Time → Bool
is_after t u = ltb u.seconds t.seconds || t.seconds == u.seconds && ltb u.nanoseconds t.nanoseconds

unfoldable pub is_before : Time → Time → Bool
is_before t u = ltb t.seconds u.seconds || t.seconds == u.seconds && ltb t.nanoseconds u.nanoseconds

-- A time in nanoseconds since 1970 is at most the leeway behind an int64 of seconds since 1970.
abbrev pub IsNotPast : ℕ → ℤ → Type 0
IsNotPast now (pos n) = now ≤ (n + leeway) * 1_000_000_000
IsNotPast now (negsuc n) = now + suc n * 1_000_000_000 ≤ leeway * 1_000_000_000

-- It is at most the leeway before it, or `time.Unix` has no time for these seconds.
abbrev pub IsDue : ℕ → ℤ → Type 0
IsDue now (pos n) = (n * 1_000_000_000 ≤ now + leeway * 1_000_000_000) ⊎ (2 ^ 63 ≤ n + year_one)
IsDue now (negsuc n) = Unit

after-order :
    (t u : Time)
    → is_after t u ≡ false
    → (t.seconds < u.seconds) ⊎ ((t.seconds ≡ u.seconds) × (t.nanoseconds ≤ u.nanoseconds))
unfolding is_after
after-order t u h = elim (Bool-cases (ltb t.seconds u.seconds)) [
  | inl less ↦ inl (ground arith)
  | inr more ↦
      let same : t.seconds ≡ u.seconds = ground arith in
      inr (same, ground (arith, (nat_eq.beq_iff t.seconds u.seconds).1 same))
]

order-le :
    (t u : Time)
    → (t.seconds < u.seconds) ⊎ ((t.seconds ≡ u.seconds) × (t.nanoseconds ≤ u.nanoseconds))
    → t.seconds ≤ u.seconds
order-le t u (inl less) = omega (arith, less)
order-le t u (inr (same, least)) = omega (arith, same)

before-order : (t u : Time) → is_before t u ≡ false → u.seconds ≤ t.seconds
unfolding is_before
before-order t u h = ground arith

-- The nanoseconds of the clock below a number of whole seconds.
second-le :
    (now j k : ℕ) → now / 1_000_000_000 + j < k → now + j * 1_000_000_000 ≤ k * 1_000_000_000
second-le now j k h = omega (arith, h)

second-eq :
    (now j k : ℕ)
    → now / 1_000_000_000 + j ≡ k
    → now % 1_000_000_000 ≤ 0
    → now + j * 1_000_000_000 ≤ k * 1_000_000_000
second-eq now j k h r = omega (arith, h, r)

from_order :
    (now j k base : ℕ) (u : Time)
    → u.seconds + j ≤ k + base
    → u.nanoseconds ≡ 0
    → (now / 1_000_000_000 + base < u.seconds)
      ⊎ ((now / 1_000_000_000 + base ≡ u.seconds) × (now % 1_000_000_000 ≤ u.nanoseconds))
    → now + j * 1_000_000_000 ≤ k * 1_000_000_000
from_order now j k base u le whole (inl less) = second-le now j k (omega (arith, le, less))
from_order now j k base u le whole (inr (same, least)) =
    elim (Bool-cases (ltb (now / 1_000_000_000 + j) k)) [
      | inl less ↦ second-le now j k (ground arith)
      | inr more ↦ second-eq now j k (ground (arith, le, same, more)) (omega (arith, least, whole))
    ]

add-le : (t : Time) (d : ℕ) → (add d t).seconds ≤ t.seconds + d
unfolding add
add-le t d = ground arith

unix-le : (n : ℕ) → (unix (pos n)).seconds ≤ n + (year_one + 2 ^ 63)
unfolding unix
unix-le n = omega arith

unix-exact : (n : ℕ) → n + year_one < 2 ^ 63 → (unix (pos n)).seconds ≡ n + (year_one + 2 ^ 63)
unfolding unix
unix-exact n h = omega (arith, h)

pub is_after-IsNotPast :
    (now : ℕ) (s : ℤ) → is_after (clock now) (add leeway (unix s)) ≡ false → IsNotPast now s
unfolding clock add unix
is_after-IsNotPast now (pos n) h = omega (
  arith,
  from_order now 0 (n + leeway) (year_one + 2 ^ 63) (add leeway (unix (pos n)))
      (omega (arith, add-le (unix (pos n)) leeway, unix-le n)) refl
      (after-order (clock now) (add leeway (unix (pos n))) h),
)
is_after-IsNotPast now (negsuc n) h =
    let order = after-order (clock now) (add leeway (unix (negsuc n))) h in
    elim (Bool-cases (ltb (year_one + 2 ^ 63) (suc n))) [
      | inl below ↦ absurd (
          ground (
            arith,
            order-le (clock now) (add leeway (unix (negsuc n))) order,
            add-le (unix (negsuc n)) leeway,
            below,
          ))
      | inr within ↦
          from_order now (suc n) leeway (year_one + 2 ^ 63) (add leeway (unix (negsuc n)))
            (ground (arith, add-le (unix (negsuc n)) leeway)) refl order
    ]

subtract-ge : (t : Time) (d : ℕ) → t.seconds ≤ (subtract d t).seconds + d
unfolding subtract
subtract-ge t d = ground arith

pub is_before-IsDue :
    (now : ℕ) (s : ℤ) → is_before (clock now) (subtract leeway (unix s)) ≡ false → IsDue now s
unfolding clock
is_before-IsDue now (pos n) h = elim (Bool-cases (ltb (n + year_one) (2 ^ 63))) [
  | inl has ↦ inl (
      omega (
        arith,
        unix-exact n (ground arith),
        subtract-ge (unix (pos n)) leeway,
        before-order (clock now) (subtract leeway (unix (pos n))) h,
      ))
  | inr late ↦ inr (ground arith)
]
is_before-IsDue now (negsuc n) h = tt
