-- ===== src/Token/Trust.antt =====
-- Which keys may sign a token, by the documentation of `VerifySigningKey` in
-- registry/auth/token/token.go.
use container_registry.Prelude.{
  true, List, [], ◌∷◌, Option, none, some, String, ◌≡◌, ◌≢◌, refl, sym, ap, ◌∙◌, subst, ◌==◌,
  string_eq, false≢true, map, All, Bool-cases, Option-cases, inl, inr,
}
use container_registry.Prelude.Sets.{lookup}
use container_registry.Token.Verify.{
  Crypto, Token, VerifyOptions, decode_all, verify_cert_chain, chain_texts, check_chain, check_jwk,
  verify_raw_jwk, choose_key, verify_signing_key,
}

module _ (c : Crypto) where
  open c use {Key, Certificate}

  pub data Decoded : List String → List Certificate → Type 0 where
    no_text : Decoded [] []
    one_text :
        {s : String} {ss : List String} {x : Certificate} {xs : List Certificate}
        → c.decode_certificate s ≡ some x
        → Decoded ss xs
        → Decoded (s ∷ ss) (x ∷ xs)

  -- The first text is the certificate of the key, and verifies by the others up to the roots.
  pub record IsChain (texts : List String) (o : VerifyOptions c) (key : Key) : Type 0 where
    pub leaf : Certificate
    pub intermediates : List Certificate
    pub decoded : Decoded texts (leaf ∷ intermediates)
    pub verified : c.verify_certificate leaf intermediates o.roots ≡ true
    pub of_leaf : c.public_key leaf ≡ some key

  -- By the certificates of the header, by a trusted key or certificates in its JWK, or by its key id.
  pub data IsTrusted (t : Token) (o : VerifyOptions c) (key : Key) : Type 0 where
    by_chain : IsChain t.header.x5c o key → IsTrusted t o key
    by_jwk :
        (jwk : String)
        → t.header.raw_jwk ≡ some jwk
        → c.parse_jwk jwk ≡ some key
        → c.x5c_field key ≡ none
        → (trusted : Key) → lookup (c.key_id key) o.trusted_keys ≡ some trusted
        → IsTrusted t o key
    by_jwk_chain :
        (jwk : String) (texts : List String) (leaf : Key)
        → t.header.raw_jwk ≡ some jwk
        → c.parse_jwk jwk ≡ some key
        → c.x5c_field key ≡ some (map some texts)
        → All (λ s. s ≢ "") texts
        → IsChain texts o leaf
        → c.key_id key ≡ c.key_id leaf
        → IsTrusted t o key
    by_key_id :
        t.header.key_id ≢ "" → lookup t.header.key_id o.trusted_keys ≡ some key → IsTrusted t o key

  some-injective : {A : Type 0} {x y : A} → some x ≡ some y → x ≡ y
  some-injective h = cc h

  decode_all-Decoded :
      (ss : List String) (xs : List Certificate) → decode_all c ss ≡ some xs → Decoded ss xs
  unfolding decode_all
  decode_all-Decoded [] xs h = subst (Decoded []) (cc h) no_text
  decode_all-Decoded (s ∷ ss) xs h = elim (Option-cases (c.decode_certificate s)) [
    | inl e ↦ cc (rw (decode_all, e) at h)
    | inr (x, e) ↦ elim (Option-cases (decode_all c ss)) [
      | inl e' ↦ cc (rw (decode_all, e, e') at h)
      | inr (ys, e') ↦
          subst (Decoded (s ∷ ss)) (some-injective (rw (decode_all, e, e') at h))
            (one_text e (decode_all-Decoded ss ys e'))
    ]
  ]

  verify_cert_chain-IsChain :
      (texts : List String) (o : VerifyOptions c) (key : Key)
      → verify_cert_chain c texts o.roots ≡ some key
      → IsChain texts o key
  unfolding verify_cert_chain
  verify_cert_chain-IsChain [] o key h = cc h
  verify_cert_chain-IsChain (s ∷ ss) o key h = elim (Option-cases (c.decode_certificate s)) [
    | inl e ↦ cc (rw e at h)
    | inr (leaf, e) ↦ elim (Option-cases (decode_all c ss)) [
      | inl e' ↦ cc (rw (e, e') at h)
      | inr (xs, e') ↦ elim (Bool-cases (c.verify_certificate leaf xs o.roots)) [
        | inr refused ↦ cc (rw (e, e', refused) at h)
        | inl good ↦ record {
          leaf = leaf;
          intermediates = xs;
          decoded = one_text e (decode_all-Decoded ss xs e');
          verified = good;
          of_leaf = rw (e, e', good) at h;
        }
      ]
    ]
  ]

  chain_texts-map :
      (vs : List (Option String)) (ss : List String)
      → chain_texts c vs ≡ some ss
      → (vs ≡ map some ss) × All (λ s. s ≢ "") ss
  unfolding chain_texts
  chain_texts-map [] ss h =
      (ap (map some) (some-injective h), subst (All (λ s. s ≢ "")) (some-injective h) tt)
  chain_texts-map (none ∷ vs) ss h = cc h
  chain_texts-map (some s ∷ vs) ss h = elim (Bool-cases (s == "")) [
    | inl empty ↦ cc (rw (chain_texts, empty) at h)
    | inr full ↦ elim (Option-cases (chain_texts c vs)) [
      | inl e ↦ cc (rw (chain_texts, full, e) at h)
      | inr (rest, e) ↦
          let (texts, all) = chain_texts-map vs rest e in
          let same : s ∷ rest ≡ ss = some-injective (rw (chain_texts, full, e) at h) in
          (
            ap (λ vs. some s ∷ vs) texts ∙ ap (map some) same,
            subst (All (λ s. s ≢ "")) same
                ((λ is. false≢true (sym full ∙ (string_eq.beq_iff s "").1 is)), all),
          )
    ]
  ]

  chained-IsTrusted :
      (t : Token) (o : VerifyOptions c) (jwk : String) (found key : Key) (vs : List (Option String))
      → t.header.raw_jwk ≡ some jwk
      → c.parse_jwk jwk ≡ some found
      → c.x5c_field found ≡ some vs
      → check_chain c o found (chain_texts c vs) ≡ some key
      → IsTrusted t o key
  chained-IsTrusted t o jwk found key vs raw parsed has h = elim (Option-cases (chain_texts c vs)) [
    | inl e ↦ cc (rw e at h)
    | inr (texts, e) ↦ elim (Option-cases (verify_cert_chain c texts o.roots)) [
      | inl refused ↦ cc (rw (e, refused) at h)
      | inr (leaf, verified) ↦ elim (Bool-cases (c.key_id found == c.key_id leaf)) [
        | inr other ↦ cc (rw (e, verified, other) at h)
        | inl same ↦
            let (all_texts, full) = chain_texts-map vs texts e in
            let is : found ≡ key = some-injective (rw (e, verified, same) at h) in
            subst (IsTrusted t o) is (
              by_jwk_chain jwk texts leaf raw parsed (has ∙ ap some all_texts) full
                (verify_cert_chain-IsChain texts o leaf verified)
                ((string_eq.beq_iff (c.key_id found) (c.key_id leaf)).0 same))
      ]
    ]
  ]

  check_jwk-IsTrusted :
      (t : Token) (o : VerifyOptions c) (jwk : String) (found key : Key)
      → t.header.raw_jwk ≡ some jwk
      → c.parse_jwk jwk ≡ some found
      → check_jwk c o found (c.x5c_field found) ≡ some key
      → IsTrusted t o key
  check_jwk-IsTrusted t o jwk found key raw parsed h = elim (Option-cases (c.x5c_field found)) [
    | inl e ↦ elim (Option-cases (lookup (c.key_id found) o.trusted_keys)) [
      | inl unknown ↦ cc (rw (e, unknown) at h)
      | inr (trusted, known) ↦
          let same : found ≡ key = some-injective (rw (e, known) at h) in
          subst (IsTrusted t o) same (by_jwk jwk raw parsed e trusted known)
    ]
    | inr (vs, e) ↦ chained-IsTrusted t o jwk found key vs raw parsed e (rw e at h)
  ]

  choose_key-IsTrusted :
      (t : Token) (o : VerifyOptions c) (key : Key) (x5c : List String) (jwk : Option String)
      → t.header.x5c ≡ x5c
      → t.header.raw_jwk ≡ jwk
      → choose_key c x5c jwk t.header.key_id o ≡ some key
      → IsTrusted t o key
  unfolding verify_raw_jwk
  choose_key-IsTrusted t o key (s ∷ ss) jwk e e' h = by_chain (
      verify_cert_chain-IsChain t.header.x5c o key
        (ap (λ x5c. verify_cert_chain c x5c o.roots) e ∙ h))
  choose_key-IsTrusted t o key [] (some jwk) e e' h = elim (Option-cases (c.parse_jwk jwk)) [
    | inl unread ↦ cc (rw unread at h)
    | inr (found, parsed) ↦ check_jwk-IsTrusted t o jwk found key e' parsed (rw parsed at h)
  ]
  choose_key-IsTrusted t o key [] none e e' h = elim (Bool-cases (t.header.key_id == "")) [
    | inl empty ↦ cc (rw empty at h)
    | inr full ↦
        by_key_id (λ is. false≢true (sym full ∙ (string_eq.beq_iff t.header.key_id "").1 is))
          (rw full at h)
  ]

  -- A key that `VerifySigningKey` finds may sign the token.
  pub verify_signing_key-IsTrusted :
      (t : Token) (o : VerifyOptions c) (key : Key)
      → verify_signing_key c t o ≡ some key
      → IsTrusted t o key
  unfolding verify_signing_key
  verify_signing_key-IsTrusted t o key h =
      choose_key-IsTrusted t o key t.header.x5c t.header.raw_jwk refl refl h
