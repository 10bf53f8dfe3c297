-- ===== src/Token/Access.antt =====
-- The access sets of registry/auth/token: which actions a token grants on which resources.
use container_registry.Prelude.{
  Bool, true, false, ◌&&◌, ◌||◌, List, [], ◌∷◌, Option, none, some, String, ◌≡◌, refl, ap, sym, ◌∙◌,
  ◌↔◌, Eq, ◌==◌, string_eq, arith, Bool-cases, inl, inr,
}
use container_registry.Prelude.Sets.{
  contains, insert_all, lookup, put, lookup-put, In-insert_all, In-insert_all_new,
  In-insert_all_old, contains_of_In, In-of_contains,
}

-- `auth.Resource`; a token's own entries have no class in the access set
pub record Resource : Type 0 where
  pub kind : String
  pub class : String
  pub name : String

abbrev resource_beq : Resource → Resource → Bool
resource_beq a b = a.kind == b.kind && a.class == b.class && a.name == b.name

pub resource_beq_iff : (a b : Resource) → (resource_beq a b ≡ true) ↔ (a ≡ b)
resource_beq_iff a b = ground (
  arith,
  string_eq.beq_iff a.kind b.kind,
  string_eq.beq_iff a.class b.class,
  string_eq.beq_iff a.name b.name,
)

instance abbrev pub resource_eq : Eq Resource
resource_eq = record { beq = resource_beq; beq_iff = resource_beq_iff }

-- `auth.Access`
pub record Access : Type 0 where
  pub resource : Resource
  pub action : String

-- `ResourceActions`, an entry of a token's claims
pub record ResourceActions : Type 0 where
  pub kind : String
  pub class : String
  pub name : String
  pub actions : List String

abbrev pub AccessSet : Type 0
AccessSet = List (Resource × List String)

abbrev pub or_new : Option (List String) → List String
or_new none = []
or_new (some set) = set

abbrev pub entry_resource : ResourceActions → Resource
entry_resource r = record { kind = r.kind; class = ""; name = r.name }

-- one round of the loop of `accessSet`
unfoldable pub add_actions : ResourceActions → AccessSet → AccessSet
add_actions r s =
    put (entry_resource r) (insert_all r.actions (or_new (lookup (entry_resource r) s))) s

unfoldable pub add_all : List ResourceActions → AccessSet → AccessSet
add_all [] s = s
add_all (r ∷ rs) s = add_all rs (add_actions r s)

-- `Token.accessSet`
unfoldable pub access_set : List ResourceActions → AccessSet
access_set rs = add_all rs []

-- `actionSet.contains`
unfoldable pub action_allowed : List String → String → Bool
action_allowed set action = contains set "*" || contains set action

abbrev pub allowed_in : Option (List String) → String → Bool
allowed_in none action = false
allowed_in (some set) action = action_allowed set action

-- `accessSet.contains`
unfoldable pub contains_access : AccessSet → Access → Bool
unfolding action_allowed
contains_access s a = allowed_in (lookup a.resource s) a.action

-- Whether one entry of the claims grants the access: the same type and name, an access without a
-- class, and the action itself or "*".
pub grants : Access → ResourceActions → Bool
grants a r =
    entry_resource r == a.resource && (contains r.actions "*" || contains r.actions a.action)

pub granted : Access → List ResourceActions → Bool
granted a [] = false
granted a (r ∷ rs) = grants a r || granted a rs

contains-insert_all :
    (xs s : List String) (x : String)
    → contains (insert_all xs s) x ≡ (contains xs x || contains s x)
contains-insert_all xs s x = elim (Bool-cases (contains xs x || contains s x)) [
  | inl yes_there ↦ elim (Bool-cases (contains xs x)) [
    | inl i ↦ contains_of_In (In-insert_all_new xs s (In-of_contains x xs i)) ∙ sym yes_there
    | inr n ↦
        let i : contains s x ≡ true = ground arith in
        contains_of_In (In-insert_all_old xs (In-of_contains x s i)) ∙ sym yes_there
  ]
  | inr not_there ↦ elim (Bool-cases (contains (insert_all xs s) x)) [
    | inl h ↦ elim (In-insert_all xs s (In-of_contains x (insert_all xs s) h)) [
      | inl i ↦ ground (arith, contains_of_In i)
      | inr i ↦ ground (arith, contains_of_In i)
    ]
    | inr h ↦ h ∙ sym not_there
  ]
]

-- The actions of one resource, behind the addition of more.
allowed_more :
    (xs : List String) (o : Option (List String)) (x : String)
    → action_allowed (insert_all xs (or_new o)) x
      ≡ ((contains xs "*" || contains xs x) || allowed_in o x)
unfolding action_allowed
allowed_more xs none x =
    ground (
      arith,
      contains-insert_all xs [] "*",
      contains-insert_all xs [] x,
      no_action "*",
      no_action x,
    )
  where
    no_action : (y : String) → contains [] y ≡ false
    no_action y = unfold contains in refl
allowed_more xs (some set) x =
    ground (arith, contains-insert_all xs set "*", contains-insert_all xs set x)

-- The lookup of `j` behind the additions to `k`, by whether they are the same resource.
allowed_at :
    (k j : Resource) (xs : List String) (s : AccessSet) (x : String) (b : Bool)
    → (k == j) ≡ b
    → allowed_in (lookup j (put k (insert_all xs (or_new (lookup k s))) s)) x
      ≡ ((b && (contains xs "*" || contains xs x)) || allowed_in (lookup j s) x)
allowed_at k j xs s x true e =
    let same : k ≡ j = (resource_beq_iff k j).0 e in
    let found : lookup j (put k (insert_all xs (or_new (lookup k s))) s)
        ≡ some (insert_all xs (or_new (lookup k s))) =
      lookup-put k j _ s ∙ rw e in
    ap (λ o. allowed_in o x) found
    ∙ allowed_more xs (lookup k s) x
    ∙ ap (λ r. (contains xs "*" || contains xs x) || allowed_in (lookup r s) x) same
allowed_at k j xs s x false e = ap (λ o. allowed_in o x) (lookup-put k j _ s ∙ rw e)

add_actions-grants :
    (r : ResourceActions) (s : AccessSet) (a : Access)
    → contains_access (add_actions r s) a ≡ (grants a r || contains_access s a)
unfolding contains_access add_actions grants
add_actions-grants r s a = allowed_at (entry_resource r) a.resource r.actions s a.action _ refl

add_all-granted :
    (rs : List ResourceActions) (s : AccessSet) (a : Access)
    → contains_access (add_all rs s) a ≡ (granted a rs || contains_access s a)
unfolding add_all granted
add_all-granted [] s a = refl
add_all-granted (r ∷ rs) s a =
    ground (arith, add_all-granted rs (add_actions r s) a, add_actions-grants r s a)

empty_grants_nothing : (a : Access) → contains_access [] a ≡ false
unfolding contains_access lookup
empty_grants_nothing a = refl

-- A token's access set contains an access exactly if one entry of its claims grants it.
pub access_set-granted :
    (rs : List ResourceActions) (a : Access) → contains_access (access_set rs) a ≡ granted a rs
unfolding access_set
access_set-granted rs a = ground (arith, add_all-granted rs [] a, empty_grants_nothing a)
