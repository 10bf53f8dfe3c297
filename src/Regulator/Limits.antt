-- ===== src/Regulator/Limits.antt =====
-- The regulator: the bound on calls, sleeping goroutines, and limits from parameters.
use container_registry.Prelude.{
  ℕ, zero, suc, ◌+◌, ◌≤◌, ok, err, some, ◌≡◌, ◌≢◌, refl, ap, ◌⊎◌, inl, inr, arith, Bool-cases,
}
use container_registry.Prelude.Int.{pos, negsuc}
use container_registry.Regulator.{
  Method, delete_files, is_regulated, Regulator, new_regulator, enter, enter_if, begin, retest,
  retest_if, signal_if, exit, exit_if, Step, begins, retests, exits, Reach, start, step, Param,
  text, unsigned64, signed, unsigned, nil, other, at_least, get_limit,
}

pub record IsBounded (limit : ℕ) (r : Regulator) : Type 0 where
  pub slots : r.available + r.inside ≡ limit
  pub awake : (r.waiting ≡ 0) ⊎ (r.available ≤ r.woken)

module _ (limit : ℕ) where
  enter_if-IsBounded :
      (n : ℕ) (r : Regulator)
      → r.available ≡ n
      → r.available + r.inside ≡ limit
      → (r.waiting ≡ 0) ⊎ (n ≤ suc r.woken)
      → IsBounded limit (enter_if n r)
  enter_if-IsBounded zero r e h k = record { slots = h; awake = inr (omega (arith, e)) }
  enter_if-IsBounded (suc n) r e h k = record {
    slots = omega (arith, e, h);
    awake = elim k [ inl z ↦ inl z | inr l ↦ inr (omega (arith, l)) ];
  }

  begin-IsBounded : (m : Method) (r : Regulator) → IsBounded limit r → IsBounded limit (begin m r)
  unfolding begin enter
  begin-IsBounded m r h = elim (Bool-cases (is_regulated m)) [
    | inl y ↦ rw y (
        enter_if-IsBounded r.available r refl h.slots
          (elim h.awake [ inl z ↦ inl z | inr l ↦ inr (omega (arith, l)) ]))
    | inr n ↦ rw n (record { slots = h.slots; awake = h.awake })
  ]

  retest_if-IsBounded :
      (n : ℕ) (r : Regulator) {q : Regulator}
      → r.woken ≡ n
      → IsBounded limit r
      → retest_if n r ≡ some q
      → IsBounded limit q
  unfolding enter
  retest_if-IsBounded zero r e h g = cc g
  retest_if-IsBounded (suc n) r {q} e h g =
      let p : enter_if r.available (record r { woken = n }) ≡ q = cc g in
      rw (← p) (
        enter_if-IsBounded r.available (record r { woken = n }) refl h.slots
          (elim h.awake [ inl z ↦ inl z | inr l ↦ inr (omega (arith, l, e)) ]))

  signal_if-IsBounded :
      (n : ℕ) (r : Regulator)
      → r.waiting ≡ n
      → r.available + r.inside ≡ limit
      → (n ≡ 0) ⊎ (r.available ≤ suc r.woken)
      → IsBounded limit (signal_if n r)
  signal_if-IsBounded zero r e h k = record { slots = h; awake = inl e }
  signal_if-IsBounded (suc n) r e h k = record {
    slots = h;
    awake = elim k [ inl z ↦ absurd (omega (arith, z)) | inr l ↦ inr (omega (arith, l)) ];
  }

  exit_if-IsBounded :
      (n : ℕ) (r : Regulator) {q : Regulator}
      → r.inside ≡ n
      → IsBounded limit r
      → exit_if n r ≡ some q
      → IsBounded limit q
  exit_if-IsBounded zero r e h g = cc g
  exit_if-IsBounded (suc n) r {q} e h g =
      let p : signal_if r.waiting (record r { available = r.available + 1; inside = n }) ≡ q =
        cc g in
      rw (← p) (
        signal_if-IsBounded r.waiting _ refl (omega (arith, e, h.slots))
          (elim h.awake [ inl z ↦ inl z | inr l ↦ inr (omega (arith, l)) ]))

  Step-IsBounded : {r q : Regulator} → Step r q → IsBounded limit r → IsBounded limit q
  unfolding retest exit
  Step-IsBounded {r} (begins m e) h = rw e (begin-IsBounded m r h)
  Step-IsBounded {r} (retests e) h = retest_if-IsBounded r.woken r refl h e
  Step-IsBounded {r} (exits e) h = exit_if-IsBounded r.inside r refl h e

  Reach-IsBounded : {r : Regulator} → Reach (new_regulator limit) r → IsBounded limit r
  Reach-IsBounded start = record { slots = omega arith; awake = inl refl }
  Reach-IsBounded (step p s) = Step-IsBounded s (Reach-IsBounded p)

  -- In every reachable state, no more calls have been let in than the limit, and together with the
  -- free slots they are as many as the limit; if a goroutine sleeps while none is on its way to test
  -- the condition again, then every slot is taken.
  pub inside-le-limit :
      {r : Regulator}
      → Reach (new_regulator limit) r
      → (r.inside ≤ limit)
        × (r.available + r.inside ≡ limit)
        × (r.woken ≡ 0 → r.waiting ≢ 0 → r.inside ≡ limit)
  inside-le-limit {r} p =
      let h = Reach-IsBounded p in
      (
        omega (arith, h.slots),
        h.slots,
        λ w s. elim h.awake [ inl z ↦ absurd (s z) | inr l ↦ omega (arith, h.slots, l, w) ],
      )

  -- The states behind `n` calls of `DeleteFiles`.
  deleting : ℕ → Regulator
  deleting n = record (new_regulator limit) { unregulated = n }

  deleting-Reach : (n : ℕ) → Reach (new_regulator limit) (deleting n)
  unfolding deleting begin
  deleting-Reach zero = start
  deleting-Reach (suc n) = step (deleting-Reach n) (
      begins delete_files
        (ap (λ k. record (new_regulator limit) { unregulated = k }) (omega arith)))

  -- Whatever the limit, any number of calls of the driver can be under way at a time: those of
  -- `DeleteFiles` are not let in one by one.
  pub delete_files_unregulated :
      (n : ℕ) → (r : Regulator) × Reach (new_regulator limit) r × (r.unregulated ≡ n)
  unfolding deleting
  delete_files_unregulated n = (deleting n, deleting-Reach n, refl)

at_least_lem : (min limit : ℕ) {l : ℕ} → at_least min limit ≡ ok l → min ≤ l
at_least_lem min limit e = ground (arith, e)

-- A limit that is read from a parameter without an error is at least the minimum.
pub min-le-get_limit : (p : Param) (min def : ℕ) {l : ℕ} → get_limit p min def ≡ ok l → min ≤ l
unfolding get_limit
min-le-get_limit (text (ok n)) min def e = at_least_lem min n e
min-le-get_limit (text (err n)) min def e = cc e
min-le-get_limit (unsigned64 n) min def e = at_least_lem min n e
min-le-get_limit (signed (pos zero)) min def e = at_least_lem min min e
min-le-get_limit (signed (pos (suc n))) min def e = at_least_lem min (suc n) e
min-le-get_limit (signed (negsuc n)) min def e = at_least_lem min min e
min-le-get_limit (unsigned n) min def e = at_least_lem min n e
min-le-get_limit nil min def e = at_least_lem min def e
min-le-get_limit other min def e = cc e
