-- ===== src/Tests/Regulator.antt =====
-- A regulator with one slot.
use container_registry.Prelude.{◌+◌, ◌≤◌, ok, ◌≡◌, ◌≢◌, refl}
use container_registry.Prelude.Int.{negsuc}
use container_registry.Regulator.{
  stat, list, Regulator, new_regulator, enter, begin, begins, Reach, start, step, signed, get_limit,
}
use container_registry.Regulator.Limits.{inside-le-limit}

-- One call is let in, a second one sleeps.
abbrev full : Regulator
full = record { available = 0; inside = 1; unregulated = 0; waiting = 1; woken = 0 }

full-Reach : Reach (new_regulator 1) full
unfolding begin enter
full-Reach = step (step start (begins stat refl)) (begins list refl)

inside-le-limit_example :
    (full.inside ≤ 1)
    × (full.available + full.inside ≡ 1)
    × (full.woken ≡ 0 → full.waiting ≢ 0 → full.inside ≡ 1)
inside-le-limit_example = inside-le-limit 1 full-Reach

negative_limit : get_limit (signed (negsuc 4)) 25 100 ≡ ok 25
unfolding get_limit
negative_limit = refl
