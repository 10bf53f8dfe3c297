-- ===== src/Storage/Join/Parted.antt =====
-- Taking paths apart at their last slash.
use container_registry.Prelude.{
  ℕ, false, List, [], ◌∷◌, ◌++◌, nat_eq, ◌≡◌, ◌≢◌, refl, sym, ap, ◌∙◌, All, append_assoc,
  append-nil, arith,
}
use container_registry.Prelude.Bytes.{Bytes, bytes_eq, Lacks}
use container_registry.Storage.Join.{
  parts, split, join_slash, before, path_split, path_dir, path_base, all_slashes, trim_slashes,
  base_of,
}
use container_registry.Storage.Join.Laws.{
  IsElement, render, parts-slash, parts-render, clean-rooted, elements-no_dots,
}

split-file : (f : Bytes) → Lacks b'/' f → path_split f ≡ ([], f)
unfolding path_split
split-file [] l = refl
split-file (c ∷ f) l = ap (before c) (split-file f l.1) ∙ ground (arith, l.0)

pub path_split-last :
    (a f : Bytes) → Lacks b'/' f → path_split (a ++ b'/' ∷ f) ≡ (a ++ b'/' ∷ [], f)
unfolding path_split
path_split-last [] f l = ap (before b'/') (split-file f l)
path_split-last (c ∷ []) f l = ap (before c) (path_split-last [] f l)
path_split-last (c ∷ d ∷ a) f l = ap (before c) (path_split-last (d ∷ a) f l)

pub render-last :
    (c : Bytes) (cs : List Bytes) (d : Bytes)
    → render ((c ∷ cs) ++ d ∷ []) ≡ render (c ∷ cs) ++ b'/' ∷ d
unfolding join_slash
render-last c [] d = refl
render-last c (e ∷ cs) d =
    ap (λ s. b'/' ∷ (c ++ s)) (render-last e cs d)
    ∙ ap (λ s. b'/' ∷ s) (sym (append_assoc c (render (e ∷ cs)) (b'/' ∷ d)))

pub path_dir-render :
    (cs : List Bytes) → All IsElement cs → path_dir (render cs ++ b'/' ∷ []) ≡ render cs
unfolding path_dir parts split
path_dir-render cs h =
    let same : parts (render cs ++ b'/' ∷ []) ≡ cs =
      parts-slash (render cs) [] ∙ (append-nil (parts (render cs)) ∙ parts-render cs h) in
    rw (path_split-last (render cs) [] tt) (
      clean-rooted (render cs ++ b'/' ∷ []) refl (rw same (elements-no_dots cs h)) ∙ ap render same)

all_slashes-element :
    (a f : Bytes) → Lacks b'/' f → f ≢ [] → all_slashes (a ++ (f ++ b'/' ∷ [])) ≡ false
all_slashes-element [] [] l n = absurd (n refl)
all_slashes-element [] (c ∷ f) l n = ground (arith, l.0)
all_slashes-element (c ∷ a) f l n = ground (arith, all_slashes-element a f l n)

trim_slashes-element : (f : Bytes) → Lacks b'/' f → trim_slashes (f ++ b'/' ∷ []) ≡ f
trim_slashes-element [] l = refl
trim_slashes-element (c ∷ f) l = ground (arith, l.0, trim_slashes-element f l.1)

trim_slashes-last :
    (a f : Bytes) → Lacks b'/' f → f ≢ [] → trim_slashes (a ++ (f ++ b'/' ∷ [])) ≡ a ++ f
trim_slashes-last [] f l n = trim_slashes-element f l
trim_slashes-last (c ∷ a) f l n =
    rw (all_slashes-element (c ∷ a) f l n) (ap (λ s. c ∷ s) (trim_slashes-last a f l n))

-- `path.Base` of a directory that is written with a slash behind it.
pub path_base-last :
    (x : ℕ) (a f : Bytes)
    → Lacks b'/' f
    → f ≢ []
    → path_base (((x ∷ a) ++ b'/' ∷ f) ++ b'/' ∷ []) ≡ f
unfolding path_base
path_base-last x a f l n =
    let text : ((x ∷ a) ++ b'/' ∷ f) ++ b'/' ∷ [] ≡ ((x ∷ a) ++ b'/' ∷ []) ++ (f ++ b'/' ∷ []) =
      append_assoc (x ∷ a) (b'/' ∷ f) (b'/' ∷ [])
      ∙ sym (append_assoc (x ∷ a) (b'/' ∷ []) (f ++ b'/' ∷ [])) in
    let trimmed : trim_slashes (((x ∷ a) ++ b'/' ∷ f) ++ b'/' ∷ []) ≡ (x ∷ a) ++ b'/' ∷ f =
      ap trim_slashes text
      ∙ (trim_slashes-last ((x ∷ a) ++ b'/' ∷ []) f l n ∙ append_assoc (x ∷ a) (b'/' ∷ []) f) in
    ap (base_of (((x ∷ a) ++ b'/' ∷ f) ++ b'/' ∷ [])) trimmed
    ∙ ap (λ (s : Bytes × Bytes). s.1) (path_split-last (x ∷ a) f l)
