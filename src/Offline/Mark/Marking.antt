-- ===== src/Offline/Mark/Marking.antt =====
-- The loops that mark manifests and what they refer to.
use container_registry.Prelude.{
  ok, err, List, [], ◌∷◌, ◌≡◌, ◌⊎◌, inl, inr, In, here, there, In-cons, string_eq, bind-eq-ok,
}
use container_registry.Prelude.Sets.{insert, insert_all}
use container_registry.Offline.Errors.{wrap, Res}
use container_registry.Offline.Tags.{Digest}
use container_registry.Offline.Mark.{
  Manifest, manifest_list, image, references, GetManifest, TagMarks, note_references, mark_tagged,
  mark_all_tagged, mark_referenced, mark_all_referenced,
}
use container_registry.Offline.Mark.Adds.{
  Adds, Adds-nothing, Adds-insert, Adds-insert_all, Adds-then, Adds-as,
}

-- A manifest of the repository that names `x` among its references.
pub data Refers (get : GetManifest) (d : Digest) (x : Digest) : Type 0 where
  by : (m : Manifest) → get d ≡ ok m → In x (references m) → Refers get d x

-- The same for an image, and for a manifest list.
pub data Layer (get : GetManifest) (d : Digest) (x : Digest) : Type 0 where
  layer : (ds : List Digest) → get d ≡ ok (image ds) → In x ds → Layer get d x

pub data Entry (get : GetManifest) (d : Digest) (x : Digest) : Type 0 where
  entry : (ds : List Digest) → get d ≡ ok (manifest_list ds) → In x ds → Entry get d x

-- `x` is one of `ds`, or stands in the relation `R` to one.
pub data Reached (R : Digest → Digest → Type 0) (ds : List Digest) (x : Digest) : Type 0 where
  itself : In x ds → Reached R ds x
  through : (d : Digest) → In d ds → R d x → Reached R ds x

pub data Through (R : Digest → Digest → Type 0) (ds : List Digest) (x : Digest) : Type 0 where
  through : (d : Digest) → In d ds → R d x → Through R ds x

module _ (R : Digest → Digest → Type 0) (d : Digest) (ds : List Digest) (x : Digest) where
  pub Reached-first : (x ≡ d) ⊎ R d x → Reached R (d ∷ ds) x
  Reached-first (inl e) = itself (rw e here)
  Reached-first (inr r) = Reached.through d here r

  pub Reached-later : Reached R ds x → Reached R (d ∷ ds) x
  Reached-later (itself i) = itself (there i)
  Reached-later (Reached.through c i r) = Reached.through c (there i) r

  pub Reached-split : Reached R (d ∷ ds) x → ((x ≡ d) ⊎ R d x) ⊎ Reached R ds x
  Reached-split (itself i) = elim (In-cons i) [ inl e ↦ inl (inl e) | inr l ↦ inr (itself l) ]
  Reached-split (Reached.through c i r) = elim (In-cons i) [
    | inl e ↦ inl (inr (rw e at r))
    | inr l ↦ inr (Reached.through c l r)
  ]

  pub Through-later : Through R ds x → Through R (d ∷ ds) x
  Through-later (Through.through c i r) = Through.through c (there i) r

  pub Through-split : Through R (d ∷ ds) x → R d x ⊎ Through R ds x
  Through-split (Through.through c i r) = elim (In-cons i) [
    | inl e ↦ inl (rw e at r)
    | inr l ↦ inr (Through.through c l r)
  ]

pub wrap-eq-ok : {A : Type 0} (r : Res A) {a : A} → wrap r ≡ ok a → r ≡ ok a
wrap-eq-ok (ok a) e = e
wrap-eq-ok (err x) e = cc

pub mark_referenced-Adds :
    (get : GetManifest) (d : Digest) (s : List Digest) {s' : List Digest}
    → mark_referenced get d s ≡ ok s'
    → Adds (λ x. (x ≡ d) ⊎ Refers get d x) s s'
unfolding mark_referenced
mark_referenced-Adds get d s {s'} e =
    let (m, got, q) =
      bind-eq-ok (wrap (get d)) (λ m. ok (insert_all (references m) (insert d s))) e in
    let g : get d ≡ ok m = wrap-eq-ok (get d) got in
    let p : insert_all (references m) (insert d s) ≡ s' = cc q in
    rw (← p) (
      Adds-then (Adds-insert d s) (Adds-insert_all (references m) (insert d s)) (λ x same. inl same)
        (λ x i. inr (by m g i))
        (λ x r. elim r [
          | inl same ↦ inl same
          | inr (by m' g' i) ↦ let t : references m' ≡ references m = cc (g, g') in inr (rw t at i)
        ]))

-- The second loop marks the manifests of the set, and all that they refer to.
pub mark_all_referenced-Adds :
    (get : GetManifest) (ds s : List Digest) {s' : List Digest}
    → mark_all_referenced get ds s ≡ ok s'
    → Adds (Reached (Refers get) ds) s s'
unfolding mark_all_referenced
mark_all_referenced-Adds get [] s {s'} e =
    let p : s ≡ s' = cc e in rw (← p) (Adds-nothing s nothing)
  where
    nothing : (x : Digest) → Reached (Refers get) [] x → ⊥
    nothing x (itself i) = elim i [ ]
    nothing x (Reached.through d i r) = elim i [ ]
mark_all_referenced-Adds get (d ∷ ds) s e =
    let (s1, first, later) =
      bind-eq-ok (mark_referenced get d s) (λ t. mark_all_referenced get ds t) e in
    Adds-then (mark_referenced-Adds get d s first) (mark_all_referenced-Adds get ds s1 later)
      (Reached-first (Refers get) d ds) (Reached-later (Refers get) d ds)
      (Reached-split (Refers get) d ds)

pub record TagStep (get : GetManifest) (d : Digest) (s s' : TagMarks) : Type 0 where
  pub marks : Adds (λ x. (x ≡ d) ⊎ Layer get d x) s.marked s'.marked
  pub refers : Adds (Entry get d) s.referenced s'.referenced

note_references-TagStep :
    (get : GetManifest) (d : Digest) (m : Manifest) (s : TagMarks)
    → get d ≡ ok m
    → TagStep get d s (note_references m (record s { marked = insert d s.marked }))
note_references-TagStep get d (manifest_list ds) s g = record {
  marks =
      Adds-as (Adds-insert d s.marked) (λ x e. inl e)
        (λ x r. elim r [ inl e ↦ e | inr (layer l g' i) ↦ cc (g, g') ]);
  refers =
      Adds-as (Adds-insert_all ds s.referenced) (λ x i. entry ds g i)
        (λ x r. elim r [ entry l g' i ↦ let p : l ≡ ds = cc (g, g') in rw p at i ]);
}
note_references-TagStep get d (image ds) s g = record {
  marks =
      Adds-then (Adds-insert d s.marked) (Adds-insert_all ds (insert d s.marked)) (λ x e. inl e)
        (λ x i. inr (layer ds g i))
        (λ x r. elim r [
          | inl e ↦ inl e
          | inr (layer l g' i) ↦ let p : l ≡ ds = cc (g, g') in inr (rw p at i)
        ]);
  refers = Adds-nothing s.referenced (λ x r. elim r [ entry l g' i ↦ cc (g, g') ]);
}

mark_tagged-TagStep :
    (get : GetManifest) (d : Digest) (s : TagMarks) {s' : TagMarks}
    → mark_tagged get d s ≡ ok s'
    → TagStep get d s s'
unfolding mark_tagged
mark_tagged-TagStep get d s {s'} e =
    let next : Manifest → Res TagMarks =
      λ m. ok (note_references m (record s { marked = insert d s.marked })) in
    let (m, got, q) = bind-eq-ok (wrap (get d)) next e in
    let p : note_references m (record s { marked = insert d s.marked }) ≡ s' = cc q in
    rw (← p) (note_references-TagStep get d m s (wrap-eq-ok (get d) got))

pub record TagSteps (get : GetManifest) (ds : List Digest) (s s' : TagMarks) : Type 0 where
  pub marks : Adds (Reached (Layer get) ds) s.marked s'.marked
  pub refers : Adds (Through (Entry get) ds) s.referenced s'.referenced

no_steps : (get : GetManifest) (s : TagMarks) → TagSteps get [] s s
no_steps get s = record {
  marks = Adds-nothing s.marked none_reached;
  refers = Adds-nothing s.referenced none_listed;
}
  where
    none_reached : (x : Digest) → Reached (Layer get) [] x → ⊥
    none_reached x (itself i) = elim i [ ]
    none_reached x (Reached.through d i r) = elim i [ ]

    none_listed : (x : Digest) → Through (Entry get) [] x → ⊥
    none_listed x (Through.through d i r) = elim i [ ]

-- The first loop marks the tagged manifests and the layers of images, and collects the entries of
-- manifest lists.
pub mark_all_tagged-TagSteps :
    (get : GetManifest) (ds : List Digest) (s : TagMarks) {s' : TagMarks}
    → mark_all_tagged get ds s ≡ ok s'
    → TagSteps get ds s s'
unfolding mark_all_tagged
mark_all_tagged-TagSteps get [] s {s'} e = let p : s ≡ s' = cc e in rw (← p) (no_steps get s)
mark_all_tagged-TagSteps get (d ∷ ds) s e =
    let (s1, first, later) = bind-eq-ok (mark_tagged get d s) (λ t. mark_all_tagged get ds t) e in
    let one = mark_tagged-TagStep get d s first in
    let rest = mark_all_tagged-TagSteps get ds s1 later in
    record {
      marks =
          Adds-then one.marks rest.marks (Reached-first (Layer get) d ds)
            (Reached-later (Layer get) d ds) (Reached-split (Layer get) d ds);
      refers =
          Adds-then one.refers rest.refers (λ x r. Through.through d here r)
            (Through-later (Entry get) d ds) (Through-split (Entry get) d ds);
    }
