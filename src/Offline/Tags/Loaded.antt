-- ===== src/Offline/Tags/Loaded.antt =====
-- What the tag cache holds once `Prime` has succeeded: the tags whose current link was read.
use container_registry.Prelude.{
  true, ok, List, [], ◌∷◌, none, some, String, ◌≡◌, refl, ◌⊎◌, inl, inr, In, here, there, In-cons,
  arith, ◌==◌, string_eq, Bool-cases, ==_refl, ap, sym, ◌∙◌,
}
use container_registry.Prelude.Sets.{put, In-put, In-put_self, In-put_ne}
use container_registry.Offline.Errors.{wrapped}
use container_registry.Offline.Tags.{
  Digest, TagCache, Link, target, absent, unreadable, TagSource, store_tag, load_tags, tags_with,
}

pub Link-cases : (l : Link) → ((d : Digest) × (l ≡ target d)) ⊎ (l ≡ absent) ⊎ (l ≡ unreadable)
Link-cases (target d) = inl (d, refl)
Link-cases absent = inr (inl refl)
Link-cases unreadable = inr (inr refl)

-- The map agrees with the links.
abbrev pub Agrees : TagSource → List (String × Digest) → Type 0
Agrees src m = (t : String) (d : Digest) → In (t, d) m → src.current t ≡ target d

put-Agrees :
    (src : TagSource) (t : String) (d : Digest) (m : List (String × Digest))
    → src.current t ≡ target d
    → Agrees src m
    → Agrees src (put t d m)
put-Agrees src t d m e a t' d' i = elim (In-put t d m i) [
  | inl p ↦
      ap (λ (q : String × Digest). src.current q.0) p
      ∙ e
      ∙ ap (λ (q : String × Digest). target q.1) (sym p)
  | inr old ↦ a t' d' old
]

-- A later `put` of what the links say keeps every entry that agrees with them.
put_keeps :
    (src : TagSource) (t : String) (d : Digest) (m : List (String × Digest)) {t' : String}
    {d' : Digest}
    → src.current t ≡ target d
    → src.current t' ≡ target d'
    → In (t', d') m
    → In (t', d') (put t d m)
put_keeps src t d m {t'} {d'} e e' i = elim (Bool-cases (t == t')) [
  | inl same ↦
      let p : t ≡ t' = (string_eq.beq_iff t t').0 same in
      let q : d ≡ d' = cc (e, e', ap src.current p) in rw (← p, ← q) (In-put_self t d m)
  | inr other ↦ In-put_ne t d m other i
]

-- Behind the loop: the map agrees with the links, keeps what it had, and has each tag read.
pub record IsLoaded (src : TagSource) (names : List String) (m m' : List (String × Digest))
    : Type 0 where
  pub agrees : Agrees src m'
  pub named : (t : String) (d : Digest) → In (t, d) m' → In t names ⊎ In (t, d) m
  pub keeps : (t : String) (d : Digest) → src.current t ≡ target d → In (t, d) m → In (t, d) m'
  pub reads : (t : String) (d : Digest) → In t names → src.current t ≡ target d → In (t, d) m'

IsLoaded-nothing :
    (src : TagSource) (m : List (String × Digest)) → Agrees src m → IsLoaded src [] m m
IsLoaded-nothing src m a = record {
  agrees = a;
  named = λ t d i. inr i;
  keeps = λ t d e i. i;
  reads = λ t d i e. elim i [ ];
}

-- One more tag, of which the link was `l`, in front of the names.
IsLoaded-tag :
    (src : TagSource) (t : String) (d : Digest) (ts : List String) {m m' : List (String × Digest)}
    → src.current t ≡ target d
    → IsLoaded src ts (put t d m) m'
    → IsLoaded src (t ∷ ts) m m'
IsLoaded-tag src t d ts {m} {m'} e l = record {
  agrees = l.agrees;
  named = λ t' d' i. elim (l.named t' d' i) [
    | inl n ↦ inl (there n)
    | inr p ↦ elim (In-put t d m p) [
      | inl q ↦ inl (rw (ap (λ (q : String × Digest). q.0) q) here)
      | inr old ↦ inr old
    ]
  ];
  keeps = λ t' d' e' i. l.keeps t' d' e' (put_keeps src t d m e e' i);
  reads = λ t' d' i e'. elim (In-cons i) [
    | inl same ↦
        let q : d' ≡ d = cc (e, e', ap src.current same) in
        rw (same, q) (l.keeps t d e (In-put_self t d m))
    | inr later ↦ l.reads t' d' later e'
  ];
}

IsLoaded-skip :
    (src : TagSource) (t : String) (ts : List String) {m m' : List (String × Digest)}
    → src.current t ≡ absent
    → IsLoaded src ts m m'
    → IsLoaded src (t ∷ ts) m m'
IsLoaded-skip src t ts e l = record {
  agrees = l.agrees;
  named = λ t' d' i. elim (l.named t' d' i) [ inl n ↦ inl (there n) | inr old ↦ inr old ];
  keeps = l.keeps;
  reads = λ t' d' i e'. elim (In-cons i) [
    | inl same ↦ cc (e, e', ap src.current same)
    | inr later ↦ l.reads t' d' later e'
  ];
}

module _ (src : TagSource) (t : String) (ts : List String) (m : List (String × Digest)) where
  pub load_tags-target :
      (d : Digest)
      → src.current t ≡ target d
      → load_tags src (t ∷ ts) m ≡ load_tags src ts (put t d m)
  unfolding load_tags store_tag
  load_tags-target d p = ground arith

  pub load_tags-absent : src.current t ≡ absent → load_tags src (t ∷ ts) m ≡ load_tags src ts m
  unfolding load_tags store_tag
  load_tags-absent p = ground arith

  pub load_tags-unreadable :
      src.current t ≡ unreadable → (load_tags src (t ∷ ts) m).0 ≡ some wrapped
  unfolding load_tags store_tag
  load_tags-unreadable p = ground arith

pub load_tags-nil : (src : TagSource) (m : List (String × Digest)) → load_tags src [] m ≡ (none, m)
unfolding load_tags
load_tags-nil src m = refl

pub load_tags-IsLoaded :
    (src : TagSource) (names : List String) (m : List (String × Digest))
    → Agrees src m
    → (load_tags src names m).0 ≡ none
    → IsLoaded src names m (load_tags src names m).1
load_tags-IsLoaded src [] m a e = rw load_tags-nil (IsLoaded-nothing src m a)
load_tags-IsLoaded src (t ∷ ts) m a e = elim (Link-cases (src.current t)) [
  | inl (d, p) ↦
      let next = load_tags-target src t ts m d p in
      rw next (
        IsLoaded-tag src t d ts p
          (load_tags-IsLoaded src ts (put t d m) (put-Agrees src t d m p a) (rw next at e)))
  | inr (inl p) ↦
      let next = load_tags-absent src t ts m p in
      rw next (IsLoaded-skip src t ts p (load_tags-IsLoaded src ts m a (rw next at e)))
  | inr (inr p) ↦ cc (load_tags-unreadable src t ts m p, e)
]

tags_with-In :
    (d : Digest) (m : List (String × Digest)) {t : String} → In t (tags_with d m) → In (t, d) m
unfolding tags_with
tags_with-In d [] i = elim i [ ]
tags_with-In d ((t, x) ∷ m) i = elim (Bool-cases (x == d)) [
  | inl same ↦ elim (In-cons (rw same at i)) [
    | inl p ↦ rw (p, (string_eq.beq_iff x d).0 same) here
    | inr later ↦ there (tags_with-In d m later)
  ]
  | inr other ↦ there (tags_with-In d m (rw other at i))
]

In-tags_with :
    (d : Digest) (m : List (String × Digest)) {t : String} → In (t, d) m → In t (tags_with d m)
unfolding tags_with
In-tags_with d [] i = elim i [ ]
In-tags_with d ((t, x) ∷ m) here = rw (==_refl d) here
In-tags_with d ((t, x) ∷ m) (there i) = elim (Bool-cases (x == d)) [
  | inl same ↦ rw same (there (In-tags_with d m i))
  | inr other ↦ rw other (In-tags_with d m i)
]

-- Some tag of the repository has the digest as its current target.
pub record IsTagged (src : TagSource) (d : Digest) : Type 0 where
  pub names : List String
  pub listed : src.all_tags ≡ ok names
  pub tag : String
  pub is_name : In tag names
  pub points : src.current tag ≡ target d

-- What `prime_tags` leaves: the source is read, and the cache has the tags of each digest.
pub record IsPrimed (src : TagSource) (c : TagCache) : Type 0 where
  pub read : c.once ≡ true
  pub tagged : (d : Digest) (t : String) → In t (tags_with d c.tags) → IsTagged src d
  pub complete : (d : Digest) → IsTagged src d → (t : String) × In t (tags_with d c.tags)

pub IsLoaded-IsPrimed :
    (src : TagSource) (names : List String) {m : List (String × Digest)}
    → src.all_tags ≡ ok names
    → IsLoaded src names [] m
    → IsPrimed src (record { once = true; tags = m })
IsLoaded-IsPrimed src names {m} e l = record {
  read = refl;
  tagged = λ d t i. record {
    names = names;
    listed = e;
    tag = t;
    is_name = only_names (l.named t d (tags_with-In d m i));
    points = l.agrees t d (tags_with-In d m i);
  };
  complete = λ d g.
      let p : g.names ≡ names = cc (e, g.listed) in
      (g.tag, In-tags_with d m (l.reads g.tag d (rw p at g.is_name) g.points));
}
  where
    only_names :
        {t : String} {d : Digest} → In t names ⊎ In {A = String × Digest} (t, d) [] → In t names
    only_names (inl n) = n
    only_names (inr i) = elim i [ ]
