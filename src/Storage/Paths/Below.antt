-- ===== src/Storage/Paths/Below.antt =====
-- Which paths lie below another.
use container_registry.Prelude.{
  ◌==◌, true, List, [], ◌∷◌, ◌++◌, ◌≡◌, refl, sym, ap, ◌∙◌, All, append_assoc, append-nil, arith,
  or-cases, inl, inr, nat_beq_iff,
}
use container_registry.Prelude.Bytes.{Bytes, bytes_eq, bytes_beq_iff, is_prefix}
use container_registry.Storage.Join.{parts, join_slash}
use container_registry.Storage.Join.Laws.{IsElement, render, parts-slash, parts-render, join-append}
use container_registry.Storage.Paths.Plain.{IsName, repo}
use container_registry.Storage.Paths.Distinct.{low_split, low_split-append}
use container_registry.Storage.Driver.{is_below}

is_prefix-split : (p q : Bytes) → is_prefix p q ≡ true → (r : Bytes) × (q ≡ p ++ r)
unfolding is_prefix
is_prefix-split [] q h = (q, refl)
is_prefix-split (c ∷ p) [] h = cc h
is_prefix-split (c ∷ p) (d ∷ q) h =
    let (r, e) = is_prefix-split p q (ground (arith, h)) in
    let head : c ≡ d = ground (arith, h, nat_beq_iff c d) in (r, cc (head, e))

is_prefix-append : (p r : Bytes) → is_prefix p (p ++ r) ≡ true
unfolding is_prefix
is_prefix-append [] r = refl
is_prefix-append (c ∷ p) r = ground (arith, is_prefix-append p r)

-- The elements of a path below another begin with those of the other.
pub below-elements :
    (cs ds : List Bytes)
    → All IsElement cs
    → All IsElement ds
    → is_below (render cs) (render ds) ≡ true
    → (r : List Bytes) × (ds ≡ cs ++ r)
below-elements cs ds hc hd h =
    elim (or-cases (render cs == render ds) (is_prefix (render cs ++ b'/' ∷ []) (render ds)) h) [
      | inl same ↦
          let texts = (bytes_beq_iff (render cs) (render ds)).0 same in
          (
            [],
            sym (parts-render ds hd)
                ∙ (ap parts (sym texts) ∙ (parts-render cs hc ∙ sym (append-nil cs))),
          )
      | inr below ↦
          let (r, e) = is_prefix-split (render cs ++ b'/' ∷ []) (render ds) below in
          (
            parts r,
            sym (parts-render ds hd)
                ∙ (ap parts (e ∙ append_assoc (render cs) (b'/' ∷ []) r)
                    ∙ (parts-slash (render cs) r ∙ ap (λ es. es ++ parts r) (parts-render cs hc))),
          )
    ]

pub below-append :
    (c : Bytes) (cs : List Bytes) (d : Bytes) (ds : List Bytes)
    → is_below (render (c ∷ cs)) (render ((c ∷ cs) ++ d ∷ ds)) ≡ true
below-append c cs d ds =
    let text : render ((c ∷ cs) ++ d ∷ ds) ≡ (render (c ∷ cs) ++ b'/' ∷ []) ++ join_slash (d ∷ ds) =
      ap (λ s. b'/' ∷ s) (join-append c cs d ds)
      ∙ sym (append_assoc (render (c ∷ cs)) (b'/' ∷ []) (join_slash (d ∷ ds))) in
    let below : is_prefix (render (c ∷ cs) ++ b'/' ∷ []) (render ((c ∷ cs) ++ d ∷ ds)) ≡ true =
      ap (is_prefix (render (c ∷ cs) ++ b'/' ∷ [])) text
      ∙ is_prefix-append (render (c ∷ cs) ++ b'/' ∷ []) (join_slash (d ∷ ds)) in
    rw below (ground arith)

-- Equal elements in two repositories are of one repository, and equal behind its name.
pub repo-injective :
    (n m : Bytes) (cs ds : List Bytes)
    → IsName n
    → IsName m
    → (low_split cs).0 ≡ []
    → (low_split ds).0 ≡ []
    → repo n cs ≡ repo m ds
    → (n ≡ m) × ((low_split cs).1 ≡ (low_split ds).1)
repo-injective n m cs ds hn hm hc hd e =
    let tails : parts n ++ cs ≡ parts m ++ ds = cc e in
    let left : low_split (parts n ++ cs) ≡ (parts n, (low_split cs).1) =
      low_split-append (parts n) cs hn.high
      ∙ ap (λ r. (r, (low_split cs).1)) (ap (λ r. parts n ++ r) hc ∙ append-nil (parts n)) in
    let right : low_split (parts m ++ ds) ≡ (parts m, (low_split ds).1) =
      low_split-append (parts m) ds hm.high
      ∙ ap (λ r. (r, (low_split ds).1)) (ap (λ r. parts m ++ r) hd ∙ append-nil (parts m)) in
    let both : (parts n, (low_split cs).1) ≡ (parts m, (low_split ds).1) =
      sym left ∙ (ap low_split tails ∙ right) in
    (
      sym hn.joined ∙ (ap (λ (b : List Bytes × List Bytes). join_slash b.0) both ∙ hm.joined),
      ap (λ (b : List Bytes × List Bytes). b.1) both,
    )
