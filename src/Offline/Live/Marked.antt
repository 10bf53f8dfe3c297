-- ===== src/Offline/Live/Marked.antt =====
-- The marks that a repository leaves, and its live digests.
use container_registry.Prelude.{
  Bool, true, false, false≢true, ok, List, [], Option, String, ◌≡◌, refl, ◌⊎◌, inl, inr, In,
  bind-eq-ok, ◌>>=◌, sym, List-cases, here, List-cases,
}
use container_registry.Offline.Errors.{Error, wrap, Res}
use container_registry.Offline.Tags.{Digest, TagCache, tags_with, new_cache}
use container_registry.Offline.Tags.Loaded.{IsPrimed}
use container_registry.Offline.Mark.{
  Repository, Found, TagMarks, Marks, ManifestDel, no_error, tolerate, visit_all, prime_tags,
  mark_all_tagged, mark_all_referenced, delete_untagged, mark_by_tags, mark_rest, mark_found,
  enumerate_manifests, mark_repository,
}
use container_registry.Offline.Mark.Adds.{Adds, Adds-as, Adds-then}
use container_registry.Offline.Mark.Enumerated.{
  prime_tags-IsPrimed, Sorted, TaggedIn, visit_all-Sorted, visit_all-Kept,
}
use container_registry.Offline.Mark.Marking.{
  Refers, Layer, Entry, Reached, itself, Through, TagSteps, wrap-eq-ok, mark_all_referenced-Adds,
  mark_all_tagged-TagSteps,
}
use container_registry.Offline.Live.{
  IsRoot, Live, manifest, reference, tagged, tagged_layer, listed, listed_reference,
}

pub TaggedIn-IsRoot :
    (r : Repository) (c : TagCache) {d : Digest}
    → IsPrimed r.tags c
    → TaggedIn c r.manifests.items d
    → IsRoot r d
TaggedIn-IsRoot r c {d} p t = elim (List-cases (tags_with d c.tags)) [
  | inl e ↦ absurd (t.has_tag e)
  | inr (tag, rest, e) ↦ record { enumerated = t.enumerated; tagged = p.tagged d tag (rw e here) }
]

pub IsRoot-TaggedIn :
    (r : Repository) (c : TagCache) {d : Digest}
    → IsPrimed r.tags c
    → IsRoot r d
    → TaggedIn c r.manifests.items d
IsRoot-TaggedIn r c {d} p t = record {
  enumerated = t.enumerated;
  has_tag = λ e. let (tag, i) = p.complete d t.tagged in elim (rw e at i) [ ];
}

mark_rest-Adds :
    (r : Repository) (t : TagMarks) (dels : List ManifestDel) {m' : Marks}
    → mark_rest r (t, dels) ≡ ok m'
    → Adds (Reached (Refers r.get) t.referenced) t.marked m'.marked
unfolding mark_rest
mark_rest-Adds r t dels {m'} e =
    let next : List Digest → Res Marks = λ s. ok (record { marked = s; deletions = dels }) in
    let (s, got, q) = bind-eq-ok (wrap (mark_all_referenced r.get t.referenced t.marked)) next e in
    let p : s ≡ m'.marked = cc q in
    rw (← p) (mark_all_referenced-Adds r.get t.referenced t.marked (wrap-eq-ok _ got))

-- Behind the enumeration, without the removal of untagged manifests.
found_kept-Adds :
    (name : String) (r : Repository) (m : Marks) (failed : Option Error) (f : Found) {m' : Marks}
    → mark_found false name r m (failed, f) ≡ ok m'
    → Adds (Reached (Refers r.get) f.referenced) m.marked m'.marked
unfolding mark_found mark_by_tags
found_kept-Adds name r m failed f e =
    let rest : Unit → Res Marks =
      λ _. mark_rest r (record { marked = m.marked; referenced = f.referenced }, m.deletions) in
    let (_, _, q) = bind-eq-ok (no_error (tolerate failed)) rest e in
    mark_rest-Adds r (record { marked = m.marked; referenced = f.referenced }) m.deletions q

-- The same with it: `t` is what the first marking loop has left.
record FoundTagged (r : Repository) (m : Marks) (f : Found) (m' : Marks) : Type 0 where
  t : TagMarks
  steps : TagSteps r.get f.tagged (record { marked = m.marked; referenced = f.referenced }) t
  rest : Adds (Reached (Refers r.get) t.referenced) t.marked m'.marked

delete_untagged-keeps :
    (name : String) (r : Repository) (f : Found) (dels : List ManifestDel) (t : TagMarks)
    {p : TagMarks × List ManifestDel}
    → delete_untagged name r f dels t ≡ ok p
    → p.0 ≡ t
unfolding delete_untagged
delete_untagged-keeps name r f dels t e =
    let next : List ManifestDel → Res (TagMarks × List ManifestDel) = λ d. ok (t, d) in
    let (d, _, q) = bind-eq-ok _ next e in cc q

found_tagged :
    (name : String) (r : Repository) (m : Marks) (failed : Option Error) (f : Found) {m' : Marks}
    → mark_found true name r m (failed, f) ≡ ok m'
    → FoundTagged r m f m'
unfolding mark_found mark_by_tags
found_tagged name r m failed f e =
    let start : TagMarks = record { marked = m.marked; referenced = f.referenced } in
    let by_tags : Res (TagMarks × List ManifestDel) = mark_by_tags true name r m f in
    let rest : Unit → Res Marks = λ _. by_tags >>= mark_rest r in
    let (_, _, q) = bind-eq-ok (no_error (tolerate failed)) rest e in
    let (p, by, later) = bind-eq-ok by_tags (mark_rest r) q in
    let (t, got, del) =
      bind-eq-ok (wrap (mark_all_tagged r.get f.tagged start))
        (delete_untagged name r f m.deletions) by in
    let same : p.0 ≡ t = delete_untagged-keeps name r f m.deletions t del in
    record {
      t = t;
      steps = mark_all_tagged-TagSteps r.get f.tagged start (wrap-eq-ok _ got);
      rest = rw same at (mark_rest-Adds r p.0 p.1 later);
    }

start_with : TagCache → Found
start_with c = record { tagged = []; untagged = []; referenced = []; cache = c }

-- From nothing, what is added is what is there.
only_new : {P : Digest → Type 0} {s : List Digest} → Adds P [] s → (x : Digest) → In x s → P x
only_new a x i = elim (a.sound x i) [ inl o ↦ elim o [ ] | inr p ↦ p ]

kept-Live :
    (r : Repository) {s : List Digest} (x : Digest)
    → Adds (λ d. In d r.manifests.items) [] s
    → Reached (Refers r.get) s x
    → Live false r x
kept-Live r x a (itself i) = manifest refl (only_new a x i)
kept-Live r x a (Reached.through d i f) = reference d refl (only_new a d i) f

Live-kept :
    (r : Repository) {s : List Digest} (x : Digest)
    → Adds (λ d. In d r.manifests.items) [] s
    → Live false r x
    → Reached (Refers r.get) s x
Live-kept r x a (manifest _ i) = itself (a.new x i)
Live-kept r x a (reference d _ i f) = Reached.through d (a.new d i) f
Live-kept r x a (tagged e _) = absurd (false≢true e)
Live-kept r x a (tagged_layer d e _ _) = absurd (false≢true e)
Live-kept r x a (listed d e _ _) = absurd (false≢true e)
Live-kept r x a (listed_reference d c e _ _ _) = absurd (false≢true e)

-- The two sets that the tagged manifests fill, told by roots.
record RootSets (r : Repository) (tagged_set listed_set : List Digest) : Type 0 where
  roots : Adds (IsRoot r) [] tagged_set
  entries : Adds (Through (Entry r.get) tagged_set) [] listed_set

module _ (r : Repository) {ts ls : List Digest} (x : Digest) (s : RootSets r ts ls) where
  root-Live : Reached (Layer r.get) ts x → Live true r x
  root-Live (itself i) = tagged refl (only_new s.roots x i)
  root-Live (Reached.through d i l) = tagged_layer d refl (only_new s.roots d i) l

  entry-Live : Reached (Refers r.get) ls x → Live true r x
  entry-Live (itself i) = elim (only_new s.entries x i) [
    | Through.through d j l ↦ listed d refl (only_new s.roots d j) l
  ]
  entry-Live (Reached.through c i f) = elim (only_new s.entries c i) [
    | Through.through d j l ↦ listed_reference d c refl (only_new s.roots d j) l f
  ]

  Live-split : Live true r x → Reached (Layer r.get) ts x ⊎ Reached (Refers r.get) ls x
  Live-split (manifest e _) = absurd (false≢true (sym e))
  Live-split (reference d e _ _) = absurd (false≢true (sym e))
  Live-split (tagged _ g) = inl (itself (s.roots.new x g))
  Live-split (tagged_layer d _ g l) = inl (Reached.through d (s.roots.new d g) l)
  Live-split (listed d _ g l) =
      inr (itself (s.entries.new x (Through.through d (s.roots.new d g) l)))
  Live-split (listed_reference d c _ g l f) =
      inr (Reached.through c (s.entries.new c (Through.through d (s.roots.new d g) l)) f)

enumerated_roots :
    (r : Repository) (c : TagCache) {g : Found}
    → IsPrimed r.tags c
    → Sorted r.tags r.manifests.items (start_with c) g
    → Adds (IsRoot r) [] g.tagged
unfolding start_with
enumerated_roots r c p s =
    Adds-as s.tagged (λ x t. TaggedIn-IsRoot r c p t) (λ x g. IsRoot-TaggedIn r c p g)

repository_tagged :
    (name : String) (r : Repository) (m : Marks) {m' : Marks}
    → mark_repository true name r m ≡ ok m'
    → Adds (Live true r) m.marked m'.marked
unfolding mark_repository start_with
repository_tagged name r m e =
    let next : TagCache → Res Marks =
      λ c. mark_found true name r m (enumerate_manifests true r c) in
    let (c, primed, q) = bind-eq-ok (prime_tags true r.tags) next e in
    let p = prime_tags-IsPrimed r.tags primed in
    let (failed, f) = visit_all true r.tags r.manifests.items r.manifests.ending (start_with c) in
    let s = visit_all-Sorted r.tags r.manifests.items r.manifests.ending (start_with c) p.read in
    let g = found_tagged name r m failed f q in
    let sets : RootSets r f.tagged g.t.referenced = record {
      roots = enumerated_roots r c p s;
      entries = rw s.same_referenced at g.steps.refers;
    } in
    Adds-then g.steps.marks g.rest (λ x t. root-Live r x sets t) (λ x t. entry-Live r x sets t)
      (λ x l. Live-split r x sets l)

repository_kept :
    (name : String) (r : Repository) (m : Marks) {m' : Marks}
    → mark_repository false name r m ≡ ok m'
    → Adds (Live false r) m.marked m'.marked
unfolding mark_repository prime_tags start_with
repository_kept name r m e =
    let (failed, f) =
      visit_all false r.tags r.manifests.items r.manifests.ending (start_with new_cache) in
    let k = visit_all-Kept r.tags r.manifests.items r.manifests.ending (start_with new_cache) in
    Adds-as (found_kept-Adds name r m failed f e) (λ x t. kept-Live r x k.referenced t)
      (λ x l. Live-kept r x k.referenced l)

-- A repository that is marked without an error adds exactly its live digests to the marks.
pub mark_repository-Adds :
    (remove : Bool) (name : String) (r : Repository) (m : Marks) {m' : Marks}
    → mark_repository remove name r m ≡ ok m'
    → Adds (Live remove r) m.marked m'.marked
mark_repository-Adds true name r m e = repository_tagged name r m e
mark_repository-Adds false name r m e = repository_kept name r m e
