-- ===== src/Offline/Live/Planned.antt =====
-- The blobs that a run plans to delete, over all repositories.
use container_registry.Prelude.{
  Bool, false, ok, ◌>>=◌, List, [], ◌∷◌, Option, none, some, String, ◌≡◌, ◌⊎◌, inl, inr, ◌↔◌, In,
  here, there, In-cons, bind-eq-ok, Bool-cases, string_eq, ap, sym, ◌∙◌,
}
use container_registry.Prelude.Sets.{contains, insert, contains_of_In, In-of_contains}
use container_registry.Offline.Errors.{Error, wrap, Res}
use container_registry.Offline.Tags.{Digest}
use container_registry.Offline.Mark.{Repository, Marks, mark_repository}
use container_registry.Offline.Mark.Adds.{Adds, Adds-nothing, Adds-then, Adds-as, Adds-insert}
use container_registry.Offline.Mark.Marking.{wrap-eq-ok}
use container_registry.Offline.Live.{Live}
use container_registry.Offline.Live.Marked.{mark_repository-Adds}
use container_registry.Offline.Plan.{
  Namespace, Options, mark_repositories, mark_named, or_fail, no_marks, mark, unmarked, Plan, plan,
}

-- A digest that one of the named repositories keeps alive.
pub data LiveIn (remove : Bool) (ns : Namespace) (names : List String) (x : Digest) : Type 0 where
  keeps :
      (name : String) (r : Repository)
      → In name names
      → ns.open_repository name ≡ ok r
      → Live remove r x
      → LiveIn remove ns names x

mark_named-Adds :
    (remove : Bool) (ns : Namespace) (name : String) (m : Marks) {m' : Marks}
    → mark_named remove ns name m ≡ ok m'
    → (r : Repository) × (ns.open_repository name ≡ ok r) × Adds (Live remove r) m.marked m'.marked
unfolding mark_named
mark_named-Adds remove ns name m e =
    let (r, got, q) =
      bind-eq-ok (wrap (ns.open_repository name)) (λ r. mark_repository remove name r m) e in
    (r, wrap-eq-ok _ got, mark_repository-Adds remove name r m q)

module _ (remove : Bool) (ns : Namespace) (name : String) (names : List String) (x : Digest) where
  Live-first :
      {r : Repository}
      → ns.open_repository name ≡ ok r
      → Live remove r x
      → LiveIn remove ns (name ∷ names) x
  Live-first {r} e l = keeps name r here e l

  Live-later : LiveIn remove ns names x → LiveIn remove ns (name ∷ names) x
  Live-later (keeps n r i e l) = keeps n r (there i) e l

  Live-split :
      {r : Repository}
      → ns.open_repository name ≡ ok r
      → LiveIn remove ns (name ∷ names) x
      → Live remove r x ⊎ LiveIn remove ns names x
  Live-split {r} e (keeps n r' i e' l) = elim (In-cons i) [
    | inl same ↦ let p : r' ≡ r = cc (e, e', same) in inl (rw p at l)
    | inr later ↦ inr (keeps n r' later e' l)
  ]

mark_repositories-Adds :
    (remove : Bool) (ns : Namespace) (names : List String) (m : Marks) {m' : Marks}
    → mark_repositories remove ns names m ≡ ok m'
    → Adds (LiveIn remove ns names) m.marked m'.marked
unfolding mark_repositories
mark_repositories-Adds remove ns [] m {m'} e =
    let p : m ≡ m' = cc e in rw (← p) (Adds-nothing m.marked nobody)
  where
    nobody : (x : Digest) → LiveIn remove ns [] x → ⊥
    nobody x (keeps n r i _ _) = elim i [ ]
mark_repositories-Adds remove ns (n ∷ names) m e =
    let (m1, first, later) =
      bind-eq-ok (mark_named remove ns n m) (λ t. mark_repositories remove ns names t) e in
    let (r, opened, a) = mark_named-Adds remove ns n m first in
    Adds-then a (mark_repositories-Adds remove ns names m1 later)
      (λ x l. Live-first remove ns n names x opened l) (λ x l. Live-later remove ns n names x l)
      (λ x l. Live-split remove ns n names x opened l)

-- A run without an error marks exactly the live digests.
pub mark-Adds :
    (o : Options) (ns : Namespace) {m : Marks}
    → mark o ns ≡ ok m
    → Adds (LiveIn o.remove_untagged ns ns.repositories) [] m.marked
unfolding mark
mark-Adds o ns {m} e =
    let next : Marks → Res Marks = λ m. or_fail ns.ending m in
    let loop : Res Marks = mark_repositories o.remove_untagged ns ns.repositories no_marks in
    let (m1, marked, q) = bind-eq-ok loop next (wrap-eq-ok (loop >>= next) e) in
    rw (or_fail_same ns.ending q) at
      (mark_repositories-Adds o.remove_untagged ns ns.repositories no_marks marked)
  where
    or_fail_same : {a b : Marks} (f : Option Error) → or_fail f a ≡ ok b → a ≡ b
    or_fail_same none h = cc h
    or_fail_same (some x) h = cc h

unmarked-Adds :
    (marked ds acc : List Digest)
    → Adds (λ x. In x ds × (contains marked x ≡ false)) acc (unmarked marked ds acc)
unfolding unmarked
unmarked-Adds marked [] acc = Adds-nothing acc (λ x p. elim (p.0) [ ])
unmarked-Adds marked (d ∷ ds) acc = elim (Bool-cases (contains marked d)) [
  | inl yes_marked ↦ rw yes_marked (
      Adds-as (unmarked-Adds marked ds acc) (λ x p. (there p.0, p.1))
        (λ x p. elim (In-cons p.0) [ inl e ↦ cc (p.1, yes_marked, e) | inr l ↦ (l, p.1) ]))
  | inr not_marked ↦ rw not_marked (
      Adds-then (Adds-insert d acc) (unmarked-Adds marked ds (insert d acc))
        (λ x e. rw e (here, not_marked)) (λ x p. (there p.0, p.1))
        (λ x p. elim (In-cons p.0) [ inl e ↦ inl e | inr l ↦ inr (l, p.1) ]))
]

-- What the plan's parts are, taken apart.
record Planned (o : Options) (ns : Namespace) (p : Plan) : Type 0 where
  marks : Marks
  marked : mark o ns ≡ ok marks
  all_blobs : p.blobs ≡ unmarked marks.marked ns.blobs.items []
  all_deletions : p.deletions ≡ marks.deletions

plan-Planned : (o : Options) (ns : Namespace) {p : Plan} → plan o ns ≡ ok p → Planned o ns p
unfolding plan
plan-Planned o ns {p} e =
    let finish : Marks → List Digest → Res Plan =
      λ m blobs. ok (record { deletions = m.deletions; blobs = blobs }) in
    let listing : Marks → Res (List Digest) =
      λ m. wrap (or_fail ns.blobs.ending (unmarked m.marked ns.blobs.items [])) in
    let (m, marked, q) = bind-eq-ok (mark o ns) (λ m. listing m >>= finish m) e in
    let (blobs, got, last) = bind-eq-ok (listing m) (finish m) q in
    record {
      marks = m;
      marked = marked;
      all_blobs = sym (
          or_fail_value ns.blobs.ending (wrap-eq-ok _ got)
          ∙ ap (λ (x : Plan). x.blobs) (ok_value last));
      all_deletions = sym (ap (λ (x : Plan). x.deletions) (ok_value last));
    }
  where
    or_fail_value : {a b : List Digest} (f : Option Error) → or_fail f a ≡ ok b → a ≡ b
    or_fail_value none h = cc h
    or_fail_value (some x) h = cc h

    ok_value : {a b : Plan} → ◌≡◌ {A = Res Plan} (ok a) (ok b) → a ≡ b
    ok_value h = cc h

-- If the mark stage and the enumeration of the blobs succeed, the blobs planned for deletion are
-- exactly the enumerated blobs that no repository keeps alive.
pub plan_exact :
    (o : Options) (ns : Namespace) (p : Plan)
    → plan o ns ≡ ok p
    → (x : Digest)
    → In x p.blobs ↔ (In x ns.blobs.items × ¬ LiveIn o.remove_untagged ns ns.repositories x)
plan_exact o ns p e x =
    let t = plan-Planned o ns e in
    let a = mark-Adds o ns t.marked in
    let u = unmarked-Adds t.marks.marked ns.blobs.items [] in
    (
      λ i. elim (u.sound x (rw t.all_blobs at i)) [
        | inl n ↦ elim n [ ]
        | inr q ↦ (q.0, λ l. cc (contains_of_In (a.new x l), q.1))
      ],
      λ q. rw t.all_blobs (u.new x (q.0, not_marked t.marks.marked a q.1)),
    )
  where
    not_marked :
        (marked : List Digest)
        → Adds (LiveIn o.remove_untagged ns ns.repositories) [] marked
        → ¬ LiveIn o.remove_untagged ns ns.repositories x
        → contains marked x ≡ false
    not_marked marked a dead = elim (Bool-cases (contains marked x)) [
      | inl y ↦ elim (a.sound x (In-of_contains x marked y)) [
        | inl n ↦ elim n [ ]
        | inr l ↦ absurd (dead l)
      ]
      | inr n ↦ n
    ]
