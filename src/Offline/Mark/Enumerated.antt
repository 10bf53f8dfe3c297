-- ===== src/Offline/Mark/Enumerated.antt =====
-- The first enumeration of a repository's manifests: which set each of them is put into.
use container_registry.Prelude.{
  Bool, true, false, ok, err, List, [], ◌∷◌, Option, String, ◌≡◌, refl, inl, inr, In, here, there,
  In-cons, arith, string_eq, ◌≢◌, List-cases,
}
use container_registry.Prelude.Sets.{insert}
use container_registry.Offline.Errors.{
  Error, single, repository_unknown, path_not_found, other, multi,
}
use container_registry.Offline.Tags.{Digest, TagSource, TagCache, tags_with}
use container_registry.Offline.Tags
use container_registry.Offline.Tags.Loaded.{IsPrimed}
use container_registry.Offline.Tags.Primed.{
  read, no_folder, broken, first_all, lookup-primed, unknown-IsPrimed,
}
use container_registry.Offline.Mark.{Found, visit_all, prime_tags}
use container_registry.Offline.Mark.Adds.{Adds, Adds-nothing, Adds-insert, Adds-then, Adds-as}

tolerated-IsPrimed :
    (src : TagSource) (x : Error) {c : TagCache}
    → src.all_tags ≡ err x
    → Tags.all src Tags.new_cache ≡ (err x, record { once = true; tags = [] })
    → prime_tags true src ≡ ok c
    → IsPrimed src c
unfolding prime_tags
tolerated-IsPrimed src (single repository_unknown) {c} p a e =
    let q : record { once = true; tags = [] } ≡ c = ground arith in
    rw (← q) (unknown-IsPrimed src p)
tolerated-IsPrimed src (single path_not_found) p a e = ground arith
tolerated-IsPrimed src (single other) p a e = ground arith
tolerated-IsPrimed src (multi cs) p a e = ground arith

pub prime_tags-IsPrimed :
    (src : TagSource) {c : TagCache} → prime_tags true src ≡ ok c → IsPrimed src c
unfolding prime_tags
prime_tags-IsPrimed src {c} e = elim (first_all src) [
  | read {c = c'} a p ↦ let q : c' ≡ c = ground arith in rw (← q) p
  | no_folder {e = x} p a ↦ tolerated-IsPrimed src x p a e
  | broken a ↦ ground arith
]

-- What the callback does with one manifest, by whether a tag points to it.
module _ (src : TagSource) (d : Digest) (ds : List Digest) (ending : Option Error) (f : Found) where
  visit-untagged :
      f.cache.once ≡ true
      → tags_with d f.cache.tags ≡ []
      → visit_all true src (d ∷ ds) ending f
        ≡ visit_all true src ds ending (record f { untagged = insert d f.untagged })
  unfolding visit_all
  visit-untagged o e = ground (arith, lookup-primed src d f.cache o)

  visit-tagged :
      {t : String} {ts : List String}
      → f.cache.once ≡ true
      → tags_with d f.cache.tags ≡ t ∷ ts
      → visit_all true src (d ∷ ds) ending f
        ≡ visit_all true src ds ending (record f { tagged = insert d f.tagged })
  unfolding visit_all
  visit-tagged o e = ground (arith, lookup-primed src d f.cache o)

  visit-referenced :
      visit_all false src (d ∷ ds) ending f
      ≡ visit_all false src ds ending (record f { referenced = insert d f.referenced })
  unfolding visit_all
  visit-referenced = refl

visit-nil :
    (remove : Bool) (src : TagSource) (ending : Option Error) (f : Found)
    → visit_all remove src [] ending f ≡ (ending, f)
unfolding visit_all
visit-nil remove src ending f = refl

-- The manifests among `ds` with a current tag, and those without.
pub record TaggedIn (c : TagCache) (ds : List Digest) (x : Digest) : Type 0 where
  pub enumerated : In x ds
  pub has_tag : tags_with x c.tags ≢ []

pub record UntaggedIn (c : TagCache) (ds : List Digest) (x : Digest) : Type 0 where
  pub enumerated : In x ds
  pub no_tag : tags_with x c.tags ≡ []

pub record Sorted (src : TagSource) (ds : List Digest) (f g : Found) : Type 0 where
  pub tagged : Adds (TaggedIn f.cache ds) f.tagged g.tagged
  pub untagged : Adds (UntaggedIn f.cache ds) f.untagged g.untagged
  pub same_referenced : g.referenced ≡ f.referenced
  pub same_cache : g.cache ≡ f.cache

Sorted-nothing : (src : TagSource) (f : Found) → Sorted src [] f f
Sorted-nothing src f = record {
  tagged = Adds-nothing f.tagged (λ x p. elim (p.enumerated) [ ]);
  untagged = Adds-nothing f.untagged (λ x p. elim (p.enumerated) [ ]);
  same_referenced = refl;
  same_cache = refl;
}

-- One more manifest in front, which no tag points to.
Sorted-untagged :
    (src : TagSource) (d : Digest) (ds : List Digest) (f : Found) {g : Found}
    → tags_with d f.cache.tags ≡ []
    → Sorted src ds (record f { untagged = insert d f.untagged }) g
    → Sorted src (d ∷ ds) f g
Sorted-untagged src d ds f e s = record {
  tagged =
      Adds-as s.tagged (λ x p. record { enumerated = there p.enumerated; has_tag = p.has_tag })
        (λ x p. record {
          enumerated = elim (In-cons p.enumerated) [
            | inl same ↦ absurd (p.has_tag (rw same e))
            | inr later ↦ later
          ];
          has_tag = p.has_tag;
        });
  untagged =
      Adds-then (Adds-insert d f.untagged) s.untagged
        (λ x same. record { enumerated = rw same here; no_tag = rw same e })
        (λ x p. record { enumerated = there p.enumerated; no_tag = p.no_tag })
        (λ x p. elim (In-cons p.enumerated) [
          | inl same ↦ inl same
          | inr later ↦ inr (record { enumerated = later; no_tag = p.no_tag })
        ]);
  same_referenced = s.same_referenced;
  same_cache = s.same_cache;
}

-- One more manifest in front, with a tag.
Sorted-tagged :
    (src : TagSource) (d : Digest) (ds : List Digest) (f : Found) {g : Found}
    → tags_with d f.cache.tags ≢ []
    → Sorted src ds (record f { tagged = insert d f.tagged }) g
    → Sorted src (d ∷ ds) f g
Sorted-tagged src d ds f e s = record {
  tagged =
      Adds-then (Adds-insert d f.tagged) s.tagged
        (λ x same. record { enumerated = rw same here; has_tag = rw same e })
        (λ x p. record { enumerated = there p.enumerated; has_tag = p.has_tag })
        (λ x p. elim (In-cons p.enumerated) [
          | inl same ↦ inl same
          | inr later ↦ inr (record { enumerated = later; has_tag = p.has_tag })
        ]);
  untagged =
      Adds-as s.untagged (λ x p. record { enumerated = there p.enumerated; no_tag = p.no_tag })
        (λ x p. record {
          enumerated = elim (In-cons p.enumerated) [
            | inl same ↦ absurd (e (rw (← same) p.no_tag))
            | inr later ↦ later
          ];
          no_tag = p.no_tag;
        });
  same_referenced = s.same_referenced;
  same_cache = s.same_cache;
}

pub visit_all-Sorted :
    (src : TagSource) (ds : List Digest) (ending : Option Error) (f : Found)
    → f.cache.once ≡ true
    → Sorted src ds f (visit_all true src ds ending f).1
visit_all-Sorted src [] ending f o = rw visit-nil (Sorted-nothing src f)
visit_all-Sorted src (d ∷ ds) ending f o = elim (List-cases (tags_with d f.cache.tags)) [
  | inl e ↦
      rw (visit-untagged src d ds ending f o e)
        (Sorted-untagged src d ds f e (visit_all-Sorted src ds ending _ o))
  | inr (t, ts, e) ↦
      rw (visit-tagged src d ds ending f o e)
        (Sorted-tagged src d ds f (λ n. cc (n, e)) (visit_all-Sorted src ds ending _ o))
]

-- Without tag removal every manifest counts as referenced, and the other sets stay as they are.
pub record Kept (ds : List Digest) (f g : Found) : Type 0 where
  pub referenced : Adds (λ x. In x ds) f.referenced g.referenced

pub visit_all-Kept :
    (src : TagSource) (ds : List Digest) (ending : Option Error) (f : Found)
    → Kept ds f (visit_all false src ds ending f).1
visit_all-Kept src [] ending f =
    rw visit-nil (record { referenced = Adds-nothing f.referenced (λ x p. elim p [ ]) })
visit_all-Kept src (d ∷ ds) ending f =
    let rest = visit_all-Kept src ds ending (record f { referenced = insert d f.referenced }) in
    rw (visit-referenced src d ds ending f) (record {
      referenced =
          Adds-then (Adds-insert d f.referenced) rest.referenced (λ x same. rw same here)
            (λ x p. there p) (λ x p. In-cons p);
    })
