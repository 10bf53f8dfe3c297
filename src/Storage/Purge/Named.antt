-- ===== src/Storage/Purge/Named.antt =====
-- Where the UUID of an upload stands in a path.
use container_registry.Prelude.{
  Bool, true, List, ◌∷◌, [], ◌++◌, Option, some, none, ◌≡◌, refl, ap, subst, ◌∙◌, inl, inr,
  Option-cases, All,
}
use container_registry.Prelude.Bytes.{Bytes}
use container_registry.Vacuum.{FilePath}
use container_registry.Storage.Join.{split}
use container_registry.Storage.Purge.{is_last, uuid_in, uuid_from_path}

module _ (parse_uuid : Bytes → Option Bytes) where
  -- The last of some elements that is a UUID, and the elements behind it.
  pub record IsLastUuid (u : Bytes) (elements after : List Bytes) : Type 0 where
    pub before : List Bytes
    pub element : Bytes
    pub place : elements ≡ before ++ element ∷ after
    pub uuid : parse_uuid element ≡ some u
    pub behind : All (λ e. parse_uuid e ≡ none) after

  none_in : (cs : List Bytes) → uuid_in parse_uuid cs ≡ none → All (λ e. parse_uuid e ≡ none) cs
  unfolding uuid_in
  none_in [] h = tt
  none_in (c ∷ cs) h = elim (Option-cases (uuid_in parse_uuid cs)) [
    | inr (found, e) ↦ cc (rw e at h)
    | inl e ↦ elim (Option-cases (parse_uuid c)) [
      | inl unread ↦ (unread, none_in cs e)
      | inr (u, read) ↦ cc (rw (e, read) at h)
    ]
  ]

  some_in :
      (cs : List Bytes) (u : Bytes) (last : Bool)
      → uuid_in parse_uuid cs ≡ some (u, last)
      → (after : List Bytes) × IsLastUuid u cs after × (is_last parse_uuid after ≡ last)
  unfolding uuid_in
  some_in [] u last h = cc h
  some_in (c ∷ cs) u last h = elim (Option-cases (uuid_in parse_uuid cs)) [
    | inr (found, e) ↦
        let (after, is, end) = some_in cs u last (e ∙ rw e at h) in
        let is' : IsLastUuid u (c ∷ cs) after = record {
          before = c ∷ is.before;
          element = is.element;
          place = ap (λ cs. c ∷ cs) is.place;
          uuid = is.uuid;
          behind = is.behind;
        } in
        (after, is', end)
    | inl e ↦ elim (Option-cases (parse_uuid c)) [
      | inl unread ↦ cc (rw (e, unread) at h)
      | inr (w, read) ↦
          let same : some (w, is_last parse_uuid cs) ≡ some (u, last) = rw (e, read) at h in
          let is : IsLastUuid u (c ∷ cs) cs = record {
            before = [];
            element = c;
            place = refl;
            uuid = cc (read, same);
            behind = none_in cs e;
          } in
          (cs, is, cc same)
    ]
  ]

  last-empty : (after : List Bytes) → is_last parse_uuid after ≡ true → after ≡ []
  last-empty [] h = refl
  last-empty (c ∷ cs) h = cc h

  pub uuid_from_path-IsLastUuid :
      (path : FilePath) (u : Bytes) (last : Bool)
      → uuid_from_path parse_uuid path ≡ some (u, last)
      → (after : List Bytes) × IsLastUuid u (split path) after × (is_last parse_uuid after ≡ last)
  unfolding uuid_from_path
  uuid_from_path-IsLastUuid path u last h = some_in (split path) u last h

  pub uuid_from_path-true :
      (path : FilePath) (u : Bytes)
      → uuid_from_path parse_uuid path ≡ some (u, true)
      → IsLastUuid u (split path) []
  uuid_from_path-true path u h =
      let (after, is, end) = uuid_from_path-IsLastUuid path u true h in
      subst (IsLastUuid u (split path)) (last-empty after end) is
