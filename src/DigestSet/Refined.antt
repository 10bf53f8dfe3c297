-- ===== src/DigestSet/Refined.antt =====
-- The digest set against a set of digests without order.
use container_registry.Prelude.{
  Bool, false, not, ◌&&◌, ◌||◌, if◌then◌else◌, List, [], ◌∷◌, ◌≡◌, refl, ap, ◌∙◌, arith, Bool-cases,
  inl, inr, ◌==◌, string_eq,
}
use mathlib.Core.Path.{fun_ext}
use container_registry.Prelude.Sets.{contains}
use container_registry.Offline.Tags.{Digest}
use container_registry.Vacuum.{DigestText}
use container_registry.DigestSet.Sorted.{IsValid, put_in, take_out, add_lem, remove_lem}
use container_registry.DigestSet.{Set, new_set, add, remove, all}
use container_registry.DigestSet.Changed.{
  put_in-IsValid, take_out-IsValid, contains-put_in, contains-take_out,
}

module _ (t : DigestText) where
  -- What is done to a set, and to the set of its members as a Boolean function.
  pub data Change : Type 0 where
    adds removes : Digest → Change

  abbrev pub change : Change → Set → Set
  change (adds d) es = (add t d es).0
  change (removes d) es = (remove t d es).0

  abbrev pub change_members : Change → (Digest → Bool) → Digest → Bool
  change_members (adds d) f x = (t.validate d && d == x) || f x
  change_members (removes d) f x = not (t.validate d && d == x) && f x

  unfoldable pub changes : List Change → Set → Set
  changes [] es = es
  changes (c ∷ cs) es = changes cs (change c es)

  pub members : List Change → (Digest → Bool) → Digest → Bool
  members [] f = f
  members (c ∷ cs) f = members cs (change_members c f)

  -- What a change comes to on a sorted set.
  abbrev changed : Change → Set → Set
  changed (adds d) es = if t.validate d then put_in t d es else es
  changed (removes d) es = if t.validate d then take_out t d es else es

  change_lem : (c : Change) (es : Set) → IsValid t es → change c es ≡ changed c es
  change_lem (adds d) es h = ap (λ (p : Set × Bool). p.0) (add_lem t d es h.sorted) ∙ ground arith
  change_lem (removes d) es h =
      ap (λ (p : Set × Bool). p.0) (remove_lem t d es h.sorted) ∙ ground arith

  changed-IsValid : (c : Change) (es : Set) → IsValid t es → IsValid t (changed c es)
  changed-IsValid (adds d) es h = elim (Bool-cases (t.validate d)) [
    | inl v ↦ rw v (put_in-IsValid t d v es h)
    | inr n ↦ rw n h
  ]
  changed-IsValid (removes d) es h = elim (Bool-cases (t.validate d)) [
    | inl v ↦ rw v (take_out-IsValid t d v es h)
    | inr n ↦ rw n h
  ]

  change-IsValid : (c : Change) (es : Set) → IsValid t es → IsValid t (change c es)
  change-IsValid c es h = rw (change_lem c es h) (changed-IsValid c es h)

  contains-changed :
      (c : Change) (es : Set) (x : Digest)
      → IsValid t es
      → contains (all (changed c es)) x ≡ change_members c (contains (all es)) x
  contains-changed (adds d) es x h = elim (Bool-cases (t.validate d)) [
    | inl v ↦ rw v (contains-put_in t d v es x)
    | inr n ↦ rw n refl
  ]
  contains-changed (removes d) es x h = elim (Bool-cases (t.validate d)) [
    | inl v ↦ rw v (contains-take_out t d v es x h.sorted h.holds)
    | inr n ↦ rw n refl
  ]

  contains-change :
      (c : Change) (es : Set) (x : Digest)
      → IsValid t es
      → contains (all (change c es)) x ≡ change_members c (contains (all es)) x
  contains-change c es x h =
      ap (λ e. contains (all e) x) (change_lem c es h) ∙ contains-changed c es x h

  changes-members :
      (cs : List Change) (es : Set)
      → IsValid t es
      → IsValid t (changes cs es)
        × ((x : Digest) → contains (all (changes cs es)) x ≡ members cs (contains (all es)) x)
  unfolding changes members
  changes-members [] es h = (h, λ x. refl)
  changes-members (c ∷ cs) es h =
      let (valid, same) = changes-members cs (change c es) (change-IsValid c es h) in
      (valid, λ x. same x ∙ ap (λ f. members cs f x) (fun_ext (λ y. contains-change c es y h)))

  -- Whatever is added to and removed from a new set, it stays sorted with each digest at most once
  -- and in its parts, and its members are those of a plain set under the same changes, where adding
  -- or removing an invalid digest does nothing.
  pub changes-refine :
      (cs : List Change)
      → IsValid t (changes cs new_set)
        × ((x : Digest) → contains (all (changes cs new_set)) x ≡ members cs (λ y. false) x)
  changes-refine cs =
      let (valid, same) = changes-members cs new_set (record { sorted = tt; holds = tt }) in
      (valid, λ x. same x ∙ ap (λ f. members cs f x) (fun_ext (λ y. contains-new y)))
    where
      contains-new : (y : Digest) → contains (all new_set) y ≡ false
      contains-new y = unfold contains in refl
