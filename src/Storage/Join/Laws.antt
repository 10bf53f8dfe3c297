-- ===== src/Storage/Join/Laws.antt =====
-- Paths that are joined from elements without dots: the elements come back out of the path.
use container_registry.Prelude.{
  ℕ, ◌==◌, Bool, true, false, ◌||◌, List, [], ◌∷◌, ◌++◌, nat_eq, ◌≡◌, ◌≢◌, refl, sym, ap, ◌∙◌, All,
  append_assoc, append-nil, arith, Bool-cases, inl, inr,
}
use container_registry.Prelude.Bytes.{Bytes, bytes_eq, bytes_beq_iff, Lacks}
use container_registry.Storage.Join.{
  push, split, dot, dots, keep, parts, resolve, is_rooted, join_slash, clean, nonempty, path_join,
  or_dot,
}

push-append : (c : ℕ) (xs ys : List Bytes) → xs ≢ [] → push c (xs ++ ys) ≡ push c xs ++ ys
push-append c [] ys n = absurd (n refl)
push-append c (x ∷ xs) ys n = refl

pub split-nonempty : (s : Bytes) → split s ≢ []
unfolding split
split-nonempty [] = ground arith
split-nonempty (c ∷ s) = elim (Bool-cases (c == b'/')) [
  | inl y ↦ rw y (λ e. cc e)
  | inr n ↦ rw n (push_nonempty c (split s))
]
  where
    push_nonempty : (c : ℕ) (xs : List Bytes) → push c xs ≢ []
    push_nonempty c [] e = cc e
    push_nonempty c (x ∷ xs) e = cc e

split-append : (a b : Bytes) → split (a ++ b'/' ∷ b) ≡ split a ++ split b
unfolding split
split-append [] b = refl
split-append (c ∷ a) b = elim (Bool-cases (c == b'/')) [
  | inl y ↦ rw (y, split-append a b) refl
  | inr n ↦ rw (n, split-append a b) (push-append c (split a) (split b) (split-nonempty a))
]

split-plain : (c : Bytes) → Lacks b'/' c → split c ≡ c ∷ []
unfolding split
split-plain [] l = refl
split-plain (x ∷ c) l = ground (arith, split-plain c l.1, l.0)

keep-append : (xs ys : List Bytes) → keep (xs ++ ys) ≡ keep xs ++ keep ys
keep-append [] ys = refl
keep-append (x ∷ xs) ys = elim (Bool-cases (x == [] || x == dot)) [
  | inl y ↦ rw (y, keep-append xs ys) refl
  | inr n ↦ rw (n, keep-append xs ys) refl
]

pub parts-slash : (a b : Bytes) → parts (a ++ b'/' ∷ b) ≡ parts a ++ parts b
unfolding parts
parts-slash a b = rw (split-append a b) (keep-append (split a) (split b))

-- An element of a path: neither empty, nor `.` or `..`, and without a slash.
abbrev pub IsElement : Bytes → Type 0
IsElement c = Lacks b'/' c × (c ≢ []) × (c ≢ dot) × (c ≢ dots)

pub parts-element : (c : Bytes) → IsElement c → parts c ≡ c ∷ []
unfolding parts
parts-element c e =
    rw (split-plain c e.0) (ground (arith, e.1, e.2, bytes_beq_iff c [], bytes_beq_iff c dot))

unfoldable pub parts_all : List Bytes → List Bytes
parts_all [] = []
parts_all (s ∷ ss) = parts s ++ parts_all ss

pub parts-join : (ss : List Bytes) → parts (join_slash ss) ≡ parts_all ss
unfolding join_slash parts_all parts
parts-join [] = refl
parts-join (c ∷ []) = sym (append-nil (parts c))
parts-join (c ∷ d ∷ cs) = parts-slash c (join_slash (d ∷ cs)) ∙ rw (parts-join (d ∷ cs)) refl

pub parts_all-elements : (cs : List Bytes) → All IsElement cs → parts_all cs ≡ cs
unfolding parts_all
parts_all-elements [] h = refl
parts_all-elements (c ∷ cs) h = rw (parts-element c h.0, parts_all-elements cs h.1) refl

parts_all-nonempty : (ss : List Bytes) → parts_all (nonempty ss) ≡ parts_all ss
unfolding parts_all parts split
parts_all-nonempty [] = refl
parts_all-nonempty ([] ∷ ss) = parts_all-nonempty ss
parts_all-nonempty ((c ∷ s) ∷ ss) = rw (parts_all-nonempty ss) refl

resolve-elements :
    (r : Bool) (cs ds : List Bytes) → All (λ d. d ≢ dots) ds → resolve r cs ds ≡ cs ++ ds
unfolding resolve
resolve-elements r cs [] h = sym (append-nil cs)
resolve-elements r cs (d ∷ ds) h =
    let other : (d == dots) ≡ false = ground (arith, h.0, bytes_beq_iff d dots) in
    rw other (resolve-elements r (cs ++ d ∷ []) ds h.1 ∙ append_assoc cs (d ∷ []) ds)

-- The text of a rooted path.
abbrev pub render : List Bytes → Bytes
render cs = b'/' ∷ join_slash cs

pub parts-render : (cs : List Bytes) → All IsElement cs → parts (render cs) ≡ cs
unfolding parts
parts-render cs h = parts-slash [] (join_slash cs) ∙ (parts-join cs ∙ parts_all-elements cs h)

join-rooted : (s : Bytes) (ss : List Bytes) → is_rooted (join_slash ((b'/' ∷ s) ∷ ss)) ≡ true
unfolding join_slash
join-rooted s [] = refl
join-rooted s (x ∷ ss) = refl

pub clean-rooted :
    (p : Bytes) → is_rooted p ≡ true → All (λ d. d ≢ dots) (parts p) → clean p ≡ render (parts p)
unfolding clean
clean-rooted p r h = rw (r, resolve-elements true [] (parts p) h) refl

-- Joining behind a rooted text gives the elements of all the texts, if none of them is `..`.
pub path_join-rooted :
    (s : Bytes) (ss : List Bytes)
    → All (λ d. d ≢ dots) (parts_all ((b'/' ∷ s) ∷ ss))
    → path_join ((b'/' ∷ s) ∷ ss) ≡ render (parts_all ((b'/' ∷ s) ∷ ss))
unfolding path_join
path_join-rooted s ss h =
    let all = (b'/' ∷ s) ∷ nonempty ss in
    let rooted = join-rooted s (nonempty ss) in
    let same : parts (join_slash all) ≡ parts_all ((b'/' ∷ s) ∷ ss) =
      parts-join all ∙ parts_all-nonempty ((b'/' ∷ s) ∷ ss) in
    let text : (join_slash all == []) ≡ false = nonempty_text (join_slash all) rooted in
    rw text (clean-rooted (join_slash all) rooted (rw same h) ∙ ap render same)
  where
    nonempty_text : (p : Bytes) → is_rooted p ≡ true → (p == []) ≡ false
    nonempty_text [] e = cc e
    nonempty_text (c ∷ p) e = refl

nonempty-elements : (cs : List Bytes) → All IsElement cs → nonempty cs ≡ cs
nonempty-elements [] h = refl
nonempty-elements (c ∷ cs) h = ground (arith, h.0.1, bytes_beq_iff c [], nonempty-elements cs h.1)

first_plain :
    (c : Bytes) (cs : List Bytes)
    → IsElement c
    → (is_rooted (join_slash (c ∷ cs)) ≡ false)
      × (or_dot (join_slash (c ∷ cs)) ≡ join_slash (c ∷ cs))
      × ((join_slash (c ∷ cs) == []) ≡ false)
unfolding join_slash
first_plain [] cs e = absurd (e.1 refl)
first_plain (x ∷ c) [] e = (ground (arith, e.0.0), refl, refl)
first_plain (x ∷ c) (d ∷ cs) e = (ground (arith, e.0.0), refl, refl)

pub elements-no_dots : (cs : List Bytes) → All IsElement cs → All (λ c. c ≢ dots) cs
elements-no_dots [] h = tt
elements-no_dots (c ∷ cs) h = (h.0.3, elements-no_dots cs h.1)

-- Joining elements puts slashes between them.
pub path_join-elements :
    (c : Bytes) (cs : List Bytes)
    → All IsElement (c ∷ cs)
    → path_join (c ∷ cs) ≡ join_slash (c ∷ cs)
unfolding path_join clean
path_join-elements c cs h =
    let (rooted, text, some_text) = first_plain c cs h.0 in
    let same : parts (join_slash (c ∷ cs)) ≡ c ∷ cs =
      parts-join (c ∷ cs) ∙ parts_all-elements (c ∷ cs) h in
    let all : resolve false [] (c ∷ cs) ≡ c ∷ cs =
      resolve-elements false [] (c ∷ cs) (elements-no_dots (c ∷ cs) h) in
    rw (nonempty-elements (c ∷ cs) h, some_text, rooted, same, all) text

pub join-append :
    (x : Bytes) (xs : List Bytes) (c : Bytes) (cs : List Bytes)
    → join_slash ((x ∷ xs) ++ c ∷ cs) ≡ join_slash (x ∷ xs) ++ b'/' ∷ join_slash (c ∷ cs)
unfolding join_slash
join-append x [] c cs = refl
join-append x (y ∷ xs) c cs =
    ap (λ s. x ++ b'/' ∷ s) (join-append y xs c cs)
    ∙ sym (append_assoc x (b'/' ∷ join_slash (y ∷ xs)) (b'/' ∷ join_slash (c ∷ cs)))
