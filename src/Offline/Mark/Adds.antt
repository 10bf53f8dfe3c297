-- ===== src/Offline/Mark/Adds.antt =====
-- What a loop adds to a set: the predicate `P` says which digests.
use container_registry.Prelude.{List, ◌⊎◌, inl, inr, In, string_eq, ◌≡◌}
use container_registry.Prelude.Sets.{
  insert, insert_all, In-insert, In-insert_self, In-insert_there, In-insert_all, In-insert_all_old,
  In-insert_all_new,
}
use container_registry.Offline.Tags.{Digest}

pub record Adds (P : Digest → Type 0) (before after : List Digest) : Type 0 where
  pub sound : (x : Digest) → In x after → In x before ⊎ P x
  pub old : (x : Digest) → In x before → In x after
  pub new : (x : Digest) → P x → In x after

pub Adds-nothing : {P : Digest → Type 0} (s : List Digest) → ((x : Digest) → P x → ⊥) → Adds P s s
Adds-nothing s no_new = record {
  sound = λ x i. inl i;
  old = λ x i. i;
  new = λ x p. absurd (no_new x p);
}

pub Adds-insert : (d : Digest) (s : List Digest) → Adds (λ x. x ≡ d) s (insert d s)
Adds-insert d s = record {
  sound = λ x i. elim (In-insert d s i) [ inl e ↦ inr e | inr o ↦ inl o ];
  old = λ x i. In-insert_there d i;
  new = λ x e. rw e (In-insert_self d s);
}

pub Adds-insert_all : (ds s : List Digest) → Adds (λ x. In x ds) s (insert_all ds s)
Adds-insert_all ds s = record {
  sound = λ x i. elim (In-insert_all ds s i) [ inl n ↦ inr n | inr o ↦ inl o ];
  old = λ x i. In-insert_all_old ds i;
  new = λ x i. In-insert_all_new ds s i;
}

-- One step after another; `R` says what both add together.
pub Adds-then :
    {P Q R : Digest → Type 0} {a b c : List Digest}
    → Adds P a b
    → Adds Q b c
    → ((x : Digest) → P x → R x)
    → ((x : Digest) → Q x → R x)
    → ((x : Digest) → R x → P x ⊎ Q x)
    → Adds R a c
Adds-then p q left right split = record {
  sound = λ x i. elim (q.sound x i) [
    | inr n ↦ inr (right x n)
    | inl m ↦ elim (p.sound x m) [ inl o ↦ inl o | inr n ↦ inr (left x n) ]
  ];
  old = λ x i. q.old x (p.old x i);
  new = λ x r. elim (split x r) [ inl n ↦ q.old x (p.new x n) | inr n ↦ q.new x n ];
}

-- The same additions, described in another way.
pub Adds-as :
    {P Q : Digest → Type 0} {a b : List Digest}
    → Adds P a b
    → ((x : Digest) → P x → Q x)
    → ((x : Digest) → Q x → P x)
    → Adds Q a b
Adds-as p to from = record {
  sound = λ x i. elim (p.sound x i) [ inl o ↦ inl o | inr n ↦ inr (to x n) ];
  old = p.old;
  new = λ x q. p.new x (from x q);
}
