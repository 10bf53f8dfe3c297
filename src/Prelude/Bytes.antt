-- ===== src/Prelude/Bytes.antt =====
-- Text as code points, where the program builds or takes apart paths and names.
use container_registry.Prelude.Equality.{Eq, nat_beq_iff}
use container_registry.Prelude.Tests.{nat_beq, ltb, if◌then◌else◌}
use container_registry.Prelude.Lists.{All}
use Prim.Native.Nat.{ℕ}
use Prim.Native.Char.{code}
use Prim.Native.String.{String}
use mathlib.Core.Bool.{Bool, true, false, not, ◌&&◌}
use mathlib.Core.List.{List, [], ◌∷◌, ◌++◌}
use mathlib.Core.Logic.{◌↔◌, ◌≢◌}
use mathlib.Core.Path.{◌≡◌, refl}
use native.Mathlib.Omega.{arith}

abbrev pub Bytes : Type 0
Bytes = List ℕ

-- The code points of a text: its bytes, if it is ASCII.
abbrev pub codes : String → Bytes
codes String.[] = []
codes (String.◌∷◌ c s) = code c ∷ codes s

abbrev pub bytes_beq : Bytes → Bytes → Bool
bytes_beq [] [] = true
bytes_beq (x ∷ xs) (y ∷ ys) = nat_beq x y && bytes_beq xs ys
bytes_beq _ _ = false

pub bytes_beq_iff : (a b : Bytes) → (bytes_beq a b ≡ true) ↔ (a ≡ b)
bytes_beq_iff (x ∷ xs) (y ∷ ys) = ground (arith, nat_beq_iff x y, bytes_beq_iff xs ys)
bytes_beq_iff _ _ = ground arith

instance abbrev pub bytes_eq : Eq Bytes
bytes_eq = record { beq = bytes_beq; beq_iff = bytes_beq_iff }

-- Go's `<` on texts.
unfoldable pub less : Bytes → Bytes → Bool
less [] [] = false
less [] (d ∷ t) = true
less (c ∷ s) [] = false
less (c ∷ s) (d ∷ t) = let rest = less s t in if nat_beq c d then rest else ltb c d

-- `strings.HasPrefix`, the prefix first.
unfoldable pub is_prefix : Bytes → Bytes → Bool
is_prefix [] s = true
is_prefix (c ∷ p) [] = false
is_prefix (c ∷ p) (d ∷ s) = nat_beq c d && is_prefix p s

-- The text has no byte `b`.
abbrev pub Lacks : ℕ → Bytes → Type 0
Lacks b = All (λ x. x ≢ b)

abbrev pub lacks : ℕ → Bytes → Bool
lacks b [] = true
lacks b (c ∷ s) = not (nat_beq c b) && lacks b s

pub lacks-Lacks : (b : ℕ) (s : Bytes) → lacks b s ≡ true → Lacks b s
lacks-Lacks b [] e = tt
lacks-Lacks b (c ∷ s) e = ((λ p. ground (arith, p)), lacks-Lacks b s (ground arith))

-- Two texts that are split at their first `b` are equal part by part.
pub split_at_byte :
    (b : ℕ) (xs ys : Bytes) {r s : Bytes}
    → Lacks b xs
    → Lacks b ys
    → xs ++ b ∷ r ≡ ys ++ b ∷ s
    → (xs ≡ ys) × (r ≡ s)
split_at_byte b [] [] hx hy e = (refl, cc)
split_at_byte b [] (y ∷ ys) hx hy e = absurd (hy.0 (cc))
split_at_byte b (x ∷ xs) [] hx hy e = absurd (hx.0 (cc))
split_at_byte b (x ∷ xs) (y ∷ ys) {r = r} {s = s} hx hy e =
    let p : (xs ≡ ys) × (r ≡ s) = split_at_byte b xs ys hx.1 hy.1 (cc) in
    let head : x ≡ y = cc in (cc (head, p.0), p.1)

pub cancel_left : (p : Bytes) {x y : Bytes} → p ++ x ≡ p ++ y → x ≡ y
cancel_left [] e = e
cancel_left (c ∷ p) e = cancel_left p (cc)
