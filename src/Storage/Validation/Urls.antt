-- ===== src/Storage/Validation/Urls.antt =====
-- `validURL` of registry/storage/validation/validation.go, and the loop over the URLs of a layer.
use container_registry.Prelude.{
  ◌==◌, nat_eq, Bool, true, false, not, ◌&&◌, ◌||◌, List, ◌∷◌, [], Option, some, none, ◌≡◌, ◌↔◌,
  ◌⊎◌, inl, inr, refl, ap, ◌∙◌, All, Bool-cases, or-cases,
}
use container_registry.Prelude.Bytes.{Bytes, codes, bytes_eq, bytes_beq_iff}
use container_registry.Storage.Validation.{
  ManifestUrls, ReferenceError, valid_parsed, not_allowed, refused_by, valid_url, url_error, is_web,
}

-- A URL that a layer may name: of the web, without a fragment, allowed and not denied.
pub record IsWebUrl (u : ManifestUrls) (s : Bytes) : Type 0 where
  pub scheme : Bytes
  pub parsed : u.parse s ≡ some (scheme, [])
  pub web : (scheme ≡ codes "http") ⊎ (scheme ≡ codes "https")
  pub allowed : (matches : Bytes → Bool) → u.allow ≡ some matches → matches s ≡ true
  pub undenied : (matches : Bytes → Bool) → u.deny ≡ some matches → matches s ≡ false

web_iff : (s : Bytes) → (is_web s ≡ true) ↔ ((s ≡ codes "http") ⊎ (s ≡ codes "https"))
web_iff s = (
  λ h. elim (or-cases (s == codes "http") (s == codes "https") h) [
    | inl e ↦ inl ((bytes_beq_iff s (codes "http")).0 e)
    | inr e ↦ inr ((bytes_beq_iff s (codes "https")).0 e)
  ],
  λ c. elim c [ inl e ↦ rw e refl | inr e ↦ rw e refl ],
)

allowed_iff :
    (o : Option (Bytes → Bool)) (s : Bytes)
    → (not_allowed o s ≡ false) ↔ ((matches : Bytes → Bool) → o ≡ some matches → matches s ≡ true)
allowed_iff none s = (λ h m e. cc e, λ h. refl)
allowed_iff (some m) s = elim (Bool-cases (m s)) [
  | inl e ↦ (λ h x same. cc (same, e), λ h. rw e refl)
  | inr e ↦ (λ h. cc (h, ap not e), λ h. cc (h m refl, e))
]

undenied_iff :
    (o : Option (Bytes → Bool)) (s : Bytes)
    → (refused_by o s ≡ false) ↔ ((matches : Bytes → Bool) → o ≡ some matches → matches s ≡ false)
undenied_iff none s = (λ h m e. cc e, λ h. refl)
undenied_iff (some m) s = (λ h x same. cc (same, h), λ h. h m refl)

all_four :
    (a b c d : Bool)
    → (a && (b && not (c || d))) ≡ true
    → (a ≡ true) × (b ≡ true) × (c ≡ false) × (d ≡ false)
all_four true true false false h = (refl, refl, refl, refl)
all_four true true false true h = cc h
all_four true true true d h = cc h
all_four true false c d h = cc h
all_four false b c d h = cc h

valid_parsed-parts :
    (u : ManifestUrls) (s scheme fragment : Bytes)
    → valid_parsed u s (some (scheme, fragment)) ≡ true
    → (is_web scheme ≡ true)
      × (fragment ≡ [])
      × (not_allowed u.allow s ≡ false)
      × (refused_by u.deny s ≡ false)
valid_parsed-parts u s scheme fragment h =
    let (web, plain, allowed, undenied) =
      all_four (is_web scheme) (fragment == []) (not_allowed u.allow s) (refused_by u.deny s) h in
    (web, (bytes_beq_iff fragment []).0 plain, allowed, undenied)

valid_parsed-IsWebUrl :
    (u : ManifestUrls) (s : Bytes) (parsed : Option (Bytes × Bytes))
    → u.parse s ≡ parsed
    → valid_parsed u s parsed ≡ true
    → IsWebUrl u s
valid_parsed-IsWebUrl u s none e h = cc h
valid_parsed-IsWebUrl u s (some (scheme, fragment)) e h =
    let (web, plain, allowed, undenied) = valid_parsed-parts u s scheme fragment h in
    record {
      scheme = scheme;
      parsed = e ∙ ap (λ f. some (scheme, f)) plain;
      web = (web_iff scheme).0 web;
      allowed = (allowed_iff u.allow s).0 allowed;
      undenied = (undenied_iff u.deny s).0 undenied;
    }

pub valid_url-IsWebUrl : (u : ManifestUrls) (s : Bytes) → (valid_url u s ≡ true) ↔ IsWebUrl u s
unfolding valid_url
valid_url-IsWebUrl u s = (
  valid_parsed-IsWebUrl u s (u.parse s) refl,
  λ w.
      rw
        (
          w.parsed,
          (web_iff w.scheme).1 w.web,
          (allowed_iff u.allow s).1 w.allowed,
          (undenied_iff u.deny s).1 w.undenied,
        )
        refl,
)

pub url_error-none :
    (u : ManifestUrls) (urls : List Bytes) (e : Option ReferenceError)
    → (url_error u urls e ≡ none) ↔ (All (IsWebUrl u) urls × (e ≡ none))
unfolding url_error
url_error-none u [] e = (λ h. (tt, h), λ h. h.1)
url_error-none u (s ∷ rest) e = elim (Bool-cases (valid_url u s)) [
  | inl v ↦ rw v (
    λ h. (
      ((valid_url-IsWebUrl u s).0 v, ((url_error-none u rest e).0 h).0),
      ((url_error-none u rest e).0 h).1,
    ),
    λ h. (url_error-none u rest e).1 (h.0.1, h.1),
  )
  | inr v ↦ rw v (λ h. cc h, λ h. cc (v, (valid_url-IsWebUrl u s).1 h.0.0))
]
