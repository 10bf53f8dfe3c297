-- ===== src/Token/Verify.antt =====
-- `Token.Verify` and the choice of its signing key: registry/auth/token/token.go. Certificates,
-- keys and signatures are libraries' (crypto/x509, github.com/docker/libtrust): parameters.
use container_registry.Prelude.{
  ℕ, Bool, false, not, List, [], ◌∷◌, Option, none, some, String, ◌==◌, string_eq, if◌then◌else◌,
}
use container_registry.Prelude.Sets.{contains, lookup}
use container_registry.Prelude.Int.{ℤ}
use container_registry.Token.Access.{ResourceActions}
use container_registry.Token.Time.{leeway, unix, clock, add, subtract, is_after, is_before}

-- `decode_certificate` is base64 and `x509.ParseCertificate` together, `verify_certificate` takes
-- the intermediates and the roots, and `x5c_field` is the "x5c" field of a key, if it is a list: a
-- value that is no text is none.
pub record Crypto : Type 1 where
  pub Key : Type 0
  pub Certificate : Type 0
  pub Roots : Type 0
  pub decode_certificate : String → Option Certificate
  pub verify_certificate : Certificate → List Certificate → Roots → Bool
  pub public_key : Certificate → Option Key
  pub parse_jwk : String → Option Key
  pub x5c_field : Key → Option (List (Option String))
  pub key_id : Key → String
  pub verify_signature : Key → String → String → String → Bool

pub record Header : Type 0 where
  pub signing_alg : String
  pub key_id : String
  pub x5c : List String
  pub raw_jwk : Option String

-- `exp` and `nbf` are int64: seconds since 1970
pub record ClaimSet : Type 0 where
  pub issuer : String
  pub subject : String
  pub audience : String
  pub expiration : ℤ
  pub not_before : ℤ
  pub access : List ResourceActions

pub record Token : Type 0 where
  pub raw : String
  pub header : Header
  pub claims : ClaimSet
  pub signature : String

module _ (c : Crypto) where
  open c use {Key, Certificate, Roots}

  pub record VerifyOptions : Type 0 where
    pub trusted_issuers : List String
    pub accepted_audiences : List String
    pub roots : Roots
    pub trusted_keys : List (String × Key)

  -- the loop over the intermediates
  unfoldable pub decode_all : List String → Option (List Certificate)
  decode_all [] = some []
  decode_all (s ∷ ss) = elim (c.decode_certificate s) [
    | none ↦ none
    | some cert ↦ elim (decode_all ss) [ none ↦ none | some certs ↦ some (cert ∷ certs) ]
  ]

  abbrev check_leaf : Roots → Option Certificate → Option (List Certificate) → Option Key
  check_leaf roots (some leaf) (some intermediates) =
      if c.verify_certificate leaf intermediates roots then c.public_key leaf else none
  check_leaf roots _ _ = none

  -- `parseAndVerifyCertChain`
  unfoldable pub verify_cert_chain : List String → Roots → Option Key
  unfolding decode_all
  verify_cert_chain [] roots = none
  verify_cert_chain (s ∷ ss) roots = check_leaf roots (c.decode_certificate s) (decode_all ss)

  -- each item of the key's chain must be a text that is not empty
  unfoldable pub chain_texts : List (Option String) → Option (List String)
  chain_texts [] = some []
  chain_texts (none ∷ vs) = none
  chain_texts (some s ∷ vs) =
      let rest = chain_texts vs in
      if s == "" then none else elim rest [ none ↦ none | some ss ↦ some (s ∷ ss) ]

  abbrev same_key : Key → Option Key → Option Key
  same_key key none = none
  same_key key (some leaf) = if c.key_id key == c.key_id leaf then some key else none

  abbrev trusted_or_none : Key → Option Key → Option Key
  trusted_or_none key none = none
  trusted_or_none key (some _) = some key

  abbrev pub check_chain : VerifyOptions → Key → Option (List String) → Option Key
  check_chain o key none = none
  check_chain o key (some ss) = same_key key (verify_cert_chain ss o.roots)

  abbrev pub check_jwk : VerifyOptions → Key → Option (List (Option String)) → Option Key
  check_jwk o key none = trusted_or_none key (lookup (c.key_id key) o.trusted_keys)
  check_jwk o key (some vs) = check_chain o key (chain_texts vs)

  abbrev pub parsed_jwk : VerifyOptions → Option Key → Option Key
  parsed_jwk o none = none
  parsed_jwk o (some key) = check_jwk o key (c.x5c_field key)

  -- `parseAndVerifyRawJWK`
  unfoldable pub verify_raw_jwk : String → VerifyOptions → Option Key
  unfolding verify_cert_chain chain_texts
  verify_raw_jwk s o = parsed_jwk o (c.parse_jwk s)

  abbrev pub key_by_id : String → VerifyOptions → Option Key
  key_by_id id o = if id == "" then none else lookup id o.trusted_keys

  abbrev pub choose_key : List String → Option String → String → VerifyOptions → Option Key
  choose_key (s ∷ ss) jwk id o = verify_cert_chain (s ∷ ss) o.roots
  choose_key [] (some jwk) id o = verify_raw_jwk jwk o
  choose_key [] none id o = key_by_id id o

  -- `VerifySigningKey`
  unfoldable pub verify_signing_key : Token → VerifyOptions → Option Key
  unfolding verify_raw_jwk
  verify_signing_key t o = choose_key t.header.x5c t.header.raw_jwk t.header.key_id o

  abbrev pub signed_by : Token → Option Key → Bool
  signed_by t none = false
  signed_by t (some key) = c.verify_signature key t.raw t.header.signing_alg t.signature

  -- `Verify` at a time in nanoseconds since 1970: true for a nil error, false for `ErrInvalidToken`
  unfoldable pub verify : ℕ → Token → VerifyOptions → Bool
  verify now t o =
      if not (contains o.trusted_issuers t.claims.issuer)
      then false
      else if not (contains o.accepted_audiences t.claims.audience)
      then false
      else if is_after (clock now) (add leeway (unix t.claims.expiration))
      then false
      else if is_before (clock now) (subtract leeway (unix t.claims.not_before))
      then false
      else if t.signature == ""
      then false
      else signed_by t (verify_signing_key t o)
