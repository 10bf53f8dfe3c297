-- ===== src/Tests/Token.antt =====
-- A token for one repository, and a request that it covers.
use container_registry.Prelude.{List, [], ◌∷◌, none, some, String, ◌≡◌, refl, string_eq, ◌==◌}
use container_registry.Prelude.Sets.{contains, insert, insert_all, lookup, put}
use container_registry.Prelude.Int.{pos}
use container_registry.Token.Access.{
  Access, ResourceActions, access_set, contains_access, granted, access_set-granted, add_all,
  add_actions, action_allowed,
}
use container_registry.Token.Verify.{Crypto, Token, verify, verify_signing_key}
use container_registry.Token.Time.{unix, clock, add, subtract, is_after, is_before}
use container_registry.Token.Controller.{
  Controller, bearer, authorized, authorize, all_allowed, IsEntitled, authorized-IsEntitled,
}

abbrev entry : ResourceActions
entry = record { kind = "repository"; class = "image"; name = "app"; actions = "pull" ∷ [] }

abbrev wanted : Access
wanted = record {
  resource = record { kind = "repository"; class = ""; name = "app" };
  action = "pull";
}

access_set-granted_example :
    contains_access (access_set (entry ∷ [])) wanted ≡ granted wanted (entry ∷ [])
access_set-granted_example = access_set-granted (entry ∷ []) wanted

-- Keys are texts, and a signature is good if it is the key.
abbrev crypto : Crypto
crypto = record {
  Key = String;
  Certificate = String;
  Roots = List String;
  decode_certificate = some;
  verify_certificate = λ leaf certs roots. contains roots leaf;
  public_key = some;
  parse_jwk = some;
  x5c_field = λ k. none;
  key_id = λ k. k;
  verify_signature = λ key raw alg signature. key == signature;
}

abbrev token : Token
token = record {
  raw = "header.claims";
  header = record { signing_alg = "ES256"; key_id = "k"; x5c = []; raw_jwk = none };
  claims = record {
    issuer = "issuer";
    subject = "ann";
    audience = "registry";
    expiration = pos 90;
    not_before = pos 10;
    access = entry ∷ [];
  };
  signature = "k";
}

abbrev controller : Controller crypto
controller = record {
  issuer = "issuer";
  service = "registry";
  roots = [];
  trusted_keys = ("k", "k") ∷ [];
  new_token = λ raw. some token;
}

ann_authorized :
    authorize crypto 100_000_000_000 controller (bearer "t") (wanted ∷ []) ≡ authorized "ann"
unfolding authorize all_allowed verify verify_signing_key unix clock add subtract is_after is_before
    access_set add_all add_actions contains_access action_allowed contains insert insert_all lookup
    put
ann_authorized = refl

authorized-IsEntitled_example :
    (t : Token) × (controller.new_token "t" ≡ some t)
    × (t.claims.subject ≡ "ann")
    × IsEntitled crypto 100_000_000_000 controller (wanted ∷ []) t
authorized-IsEntitled_example =
    authorized-IsEntitled crypto 100_000_000_000 controller "t" "ann" (wanted ∷ []) ann_authorized
