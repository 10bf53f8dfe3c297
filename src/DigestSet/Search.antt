-- ===== src/DigestSet/Search.antt =====
-- `sort.Search`: the first index that passes the test, if all behind it pass too.
use container_registry.Prelude.{ℕ, zero, suc, ◌+◌, ◌-◌, ◌/◌, ◌≤◌, ◌<◌, leb, Bool, ◌≡◌, arith}
use container_registry.DigestSet.{search_loop, sort_search}

module _ (f : ℕ → Bool) (n r : ℕ) (split : (k : ℕ) → k < n → f k ≡ leb r k) where
  search_loop_lem :
      (fuel i j : ℕ) → i ≤ r → r ≤ j → j ≤ n → j - i ≤ fuel → search_loop fuel f i j ≡ r
  unfolding search_loop
  search_loop_lem zero i j a b c d = omega arith
  search_loop_lem (suc fuel) i j a b c d = ground (
    arith,
    split ((i + j) / 2),
    search_loop_lem fuel i ((i + j) / 2),
    search_loop_lem fuel (suc ((i + j) / 2)) j,
  )

  -- With `n` rounds at most, the search finds where the test turns true.
  pub sort_search_lem : r ≤ n → sort_search n f ≡ r
  unfolding sort_search
  sort_search_lem h = search_loop_lem n 0 n (omega arith) h (omega arith) (omega arith)
