-- ===== src/Tests/DigestSet.antt =====
-- A digest set with a few members, and its lookups.
use container_registry.Prelude.{
  Bool, true, false, ◌||◌, List, [], ◌∷◌, ok, ◌≡◌, refl, string_eq, ◌==◌,
}
use container_registry.Prelude.Bytes.{codes, less, is_prefix}
use container_registry.Prelude.Sets.{contains}
use container_registry.Offline.Tags.{Digest}
use container_registry.DigestSet
use container_registry.DigestSet.{
  Entry, Set, new_set, not_found, sort_search, search_loop, less_key, check_short_match, add,
  remove, all,
}
use container_registry.DigestSet.Sorted.{IsValid}
use container_registry.DigestSet.Refined.{Change, adds, removes, changes, members, changes-refine}
use container_registry.DigestSet.Short.{beginning, only, lookup-only}
use container_registry.Tests.Storage.{sha256}

abbrev edits : List (Change sha256)
edits =
    adds "list"
    ∷ adds "img"
    ∷ adds "a/b"
    ∷ adds "lime"
    ∷ adds "old"
    ∷ removes "old"
    ∷ adds "img"
    ∷ []

abbrev three : Set
three = changes sha256 edits new_set

changes-refine_example :
    IsValid sha256 three
    × ((x : Digest) → contains (all three) x ≡ members sha256 edits (λ y. false) x)
changes-refine_example = changes-refine sha256 edits

three_sorted : all three ≡ "img" ∷ "lime" ∷ "list" ∷ []
unfolding changes add remove sort_search search_loop less_key less
three_sorted = refl

-- Texts of one and two letters are no digests.
abbrev is_short : Digest → Bool
is_short d = d == "i" || d == "li"

lookup-only_example :
    DigestSet.lookup sha256 is_short "li" three ≡ only (beginning (codes "li") three)
lookup-only_example = lookup-only sha256 is_short "li" three (changes-refine sha256 edits).0 refl

has_list : contains (all three) "list" ≡ true
unfolding changes add remove sort_search search_loop less_key less contains
has_list = refl

short_found : DigestSet.lookup sha256 is_short "i" three ≡ ok "img"
unfolding DigestSet.lookup changes add remove sort_search search_loop less_key less
    check_short_match is_prefix
short_found = refl

abbrev long : Entry
long = record { alg = codes "sha512"; val = codes "abca"; digest = "sha512:abca" }

abbrev short : Entry
short = record { alg = codes "sha256"; val = codes "abcb"; digest = "abcb" }
