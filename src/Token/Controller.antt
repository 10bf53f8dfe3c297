-- ===== src/Token/Controller.antt =====
-- `accessController.Authorized` of registry/auth/token/accesscontroller.go.
use container_registry.Prelude.{
  ℕ, Bool, true, false, false≢true, not, List, [], ◌∷◌, Option, none, some, String, ◌≡◌, ◌≢◌, refl,
  sym, ◌∙◌, ◌==◌, string_eq, if◌then◌else◌, All, arith, Bool-cases, Option-cases, inl, inr,
}
use container_registry.Prelude.Sets.{contains}
use container_registry.Token.Access.{
  Access, ResourceActions, access_set, contains_access, granted, access_set-granted,
}
use container_registry.Token.Verify.{
  Crypto, Token, VerifyOptions, verify_signing_key, verify, signed_by,
}
use container_registry.Token.Time.{
  leeway, unix, clock, add, subtract, is_after, is_before, IsNotPast, IsDue, is_after-IsNotPast,
  is_before-IsDue,
}
use container_registry.Token.Trust.{IsTrusted, verify_signing_key-IsTrusted}

-- Why a request is challenged, or the name of the user that it is granted to.
pub data Decision : Type 0 where
  token_required malformed_token invalid_token insufficient_scope : Decision
  authorized : String → Decision

-- The request's `Authorization` header, as far as it is looked at: no bearer token, or a raw one.
pub data Credentials : Type 0 where
  no_bearer : Credentials
  bearer : String → Credentials

module _ (c : Crypto) where
  -- `new_token` is `NewToken`: its base64 and JSON decoding are the standard library's.
  pub record Controller : Type 0 where
    pub issuer : String
    pub service : String
    pub roots : c.Roots
    pub trusted_keys : List (String × c.Key)
    pub new_token : String → Option Token

  abbrev options : Controller → VerifyOptions c
  options ac = record {
    trusted_issuers = ac.issuer ∷ [];
    accepted_audiences = ac.service ∷ [];
    roots = ac.roots;
    trusted_keys = ac.trusted_keys;
  }

  -- the loop over the requested items
  unfoldable pub all_allowed : List ResourceActions → List Access → Bool
  all_allowed claims [] = true
  all_allowed claims (a ∷ items) =
      let rest = all_allowed claims items in
      if not (contains_access (access_set claims) a) then false else rest

  abbrev pub decide : ℕ → Controller → List Access → Option Token → Decision
  decide now ac items none = malformed_token
  decide now ac items (some t) =
      if not (verify c now t (options ac))
      then invalid_token
      else if not (all_allowed t.claims.access items)
      then insufficient_scope
      else authorized t.claims.subject

  unfoldable pub authorize : ℕ → Controller → Credentials → List Access → Decision
  unfolding all_allowed
  authorize now ac no_bearer items = token_required
  authorize now ac (bearer raw) items = decide now ac items (ac.new_token raw)

  -- What a granted request stands on.
  pub record IsEntitled (now : ℕ) (ac : Controller) (items : List Access) (t : Token) : Type 0 where
    pub issued : t.claims.issuer ≡ ac.issuer
    pub addressed : t.claims.audience ≡ ac.service
    pub not_expired : IsNotPast now t.claims.expiration
    pub usable : IsDue now t.claims.not_before
    pub signed : t.signature ≢ ""
    pub key : c.Key
    pub trusted : IsTrusted c t (options ac) key
    pub verified : c.verify_signature key t.raw t.header.signing_alg t.signature ≡ true
    pub all_granted : All (λ a. granted a t.claims.access ≡ true) items

  all_allowed-granted :
      (claims : List ResourceActions) (items : List Access)
      → all_allowed claims items ≡ true
      → All (λ a. granted a claims ≡ true) items
  unfolding all_allowed
  all_allowed-granted claims [] h = tt
  all_allowed-granted claims (a ∷ items) h =
      (ground (arith, access_set-granted claims a), all_allowed-granted claims items (ground arith))

  signed-key :
      (t : Token) (o : Option c.Key)
      → signed_by c t o ≡ true
      → (k : c.Key) × (o ≡ some k)
        × (c.verify_signature k t.raw t.header.signing_alg t.signature ≡ true)
  signed-key t none h = absurd (false≢true h)
  signed-key t (some k) h = (k, refl, h)

  contains-singleton : (x y : String) → contains (x ∷ []) y ≡ true → y ≡ x
  unfolding contains
  contains-singleton x y h = ground (arith, string_eq.beq_iff x y)

  verify-checks :
      (now : ℕ) (t : Token) (o : VerifyOptions c)
      → verify c now t o ≡ true
      → (contains o.trusted_issuers t.claims.issuer ≡ true)
        × (contains o.accepted_audiences t.claims.audience ≡ true)
        × (is_after (clock now) (add leeway (unix t.claims.expiration)) ≡ false)
        × (is_before (clock now) (subtract leeway (unix t.claims.not_before)) ≡ false)
        × ((t.signature == "") ≡ false)
        × (signed_by c t (verify_signing_key c t o) ≡ true)
  unfolding verify
  verify-checks now t o h =
      (ground arith, ground arith, ground arith, ground arith, ground arith, ground arith)

  verify-IsEntitled :
      (now : ℕ) (ac : Controller) (items : List Access) (t : Token)
      → verify c now t (options ac) ≡ true
      → all_allowed t.claims.access items ≡ true
      → IsEntitled now ac items t
  verify-IsEntitled now ac items t v all =
      let (issuer, audience, fresh, due, text, verifies) = verify-checks now t (options ac) v in
      let (k, found, valid) = signed-key t (verify_signing_key c t (options ac)) verifies in
      record {
        issued = contains-singleton ac.issuer t.claims.issuer issuer;
        addressed = contains-singleton ac.service t.claims.audience audience;
        not_expired = is_after-IsNotPast now t.claims.expiration fresh;
        usable = is_before-IsDue now t.claims.not_before due;
        signed = λ empty. false≢true (sym text ∙ (string_eq.beq_iff t.signature "").1 empty);
        key = k;
        trusted = verify_signing_key-IsTrusted c t (options ac) k found;
        verified = valid;
        all_granted = all_allowed-granted t.claims.access items all;
      }

  authorized-injective : (x y : String) → authorized x ≡ authorized y → x ≡ y
  authorized-injective x y e = cc e

  decide-granted :
      (now : ℕ) (ac : Controller) (items : List Access) (t : Token) (user : String)
      → decide now ac items (some t) ≡ authorized user
      → (verify c now t (options ac) ≡ true)
        × (all_allowed t.claims.access items ≡ true)
        × (t.claims.subject ≡ user)
  decide-granted now ac items t user h = elim (Bool-cases (verify c now t (options ac))) [
    | inl valid ↦ elim (Bool-cases (all_allowed t.claims.access items)) [
      | inl all ↦ (valid, all, authorized-injective t.claims.subject user (rw (valid, all) at h))
      | inr refused ↦ cc (rw (valid, refused) at h)
    ]
    | inr invalid ↦ cc (rw invalid at h)
  ]

  -- A request is granted only with a token that can be read, of the right issuer and audience, at most
  -- the leeway behind its expiration time and before its time of first use (unless `time.Unix` has no time for
  -- that), whose signature is not empty and is verified by a trusted key, and with each requested access granted by an entry of its
  -- claims; the user is the token's subject. A key is trusted as the certificate at the head of the header's chain, which
  -- verifies up to the roots, as a JWK whose key id a trusted key has or that has the key id of such a certificate of its own chain, or as the
  -- trusted key of the header's key id.
  pub authorized-IsEntitled :
      (now : ℕ) (ac : Controller) (raw user : String) (items : List Access)
      → authorize now ac (bearer raw) items ≡ authorized user
      → (t : Token) × (ac.new_token raw ≡ some t)
        × (t.claims.subject ≡ user)
        × IsEntitled now ac items t
  unfolding authorize
  authorized-IsEntitled now ac raw user items h = elim (Option-cases (ac.new_token raw)) [
    | inl unread ↦ cc (rw unread at h)
    | inr (t, read) ↦
        let (v, all, name) = decide-granted now ac items t user (rw read at h) in
        (t, read, name, verify-IsEntitled now ac items t v all)
  ]
