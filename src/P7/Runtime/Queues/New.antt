-- ===== src/P7/Runtime/Queues/New.antt =====
-- p7/p7impl.c: p7_coro_new takes a coroutine out of the pool or of unused memory.
use servcraft.Prelude.{
  ℕ, ◌-◌, ◌≡◌, refl, ap, true, Option, none, some, List, [], ◌∷◌, ◌++◌, arith, count, count-append,
  count-erase, length-erase, ==_iff, ==_self, some_eq, sym,
}
use mathlib.Core.Path.{subst}
use servcraft.P7.Runtime.{CoroCntx, Coro, Carrier, unlink, store}
use servcraft.P7.Runtime.Coroutines.{
  coro_init, coro_reuse, coro_new, coro_new_from, coro_new_inner, pool_take,
}
use servcraft.P7.Runtime.Queues.{places, IsSound}

-- The running coroutine is the same, and none was put to the run queue that had not been.
abbrev pub Keeps : Carrier → Carrier → Type 0
Keeps c d =
    (d.running ≡ c.running) × ((y : ℕ) → (d.coros y).resched ≡ true → (c.coros y).resched ≡ true)

-- A new coroutine, if there is one, stands in no list.
abbrev pub Made : Carrier → Carrier × Option ℕ → Type 0
Made c (d, none) = IsSound d × Keeps c d
Made c (d, some x) = IsSound d × Keeps c d × (places x d ≡ 0)

module _ {c : Carrier} (sound : IsSound c) where
  open sound use {apart, counted, within, ran, wakeable}

  -- Out of unused memory.
  fresh-IsSound :
      (x : ℕ) (xs : List ℕ) (co : Coro)
      → c.fresh ≡ x ∷ xs
      → IsSound (store x co (record c { fresh = xs }))
        × (places x (store x co (record c { fresh = xs })) ≡ 0)
  fresh-IsSound x xs co e = (
    record {
      apart = λ y. ground (arith, apart y, ap (count y) e);
      counted = counted;
      within = within;
      ran = ran;
      wakeable = λ y h. ground (arith, apart y, ap (count y) e, wakeable y h, ==_iff x y);
    },
    ground (arith, apart x, ap (count x) e, ==_self x),
  )

  -- Out of the pool.
  abbrev taken : ℕ → Coro → Carrier
  taken x co = store x co (record (unlink x c) { coro_pool_size = c.coro_pool_size - 1 })

  pool-IsSound :
      (x : ℕ) (xs : List ℕ) (co : Coro)
      → c.coro_pool_tl ≡ x ∷ xs
      → IsSound (taken x co) × (places x (taken x co) ≡ 0)
  unfolding unlink
  pool-IsSound x xs co e = (
    record {
      apart = λ y. ground (
        arith,
        apart y,
        count-erase y x c.coro_queue,
        count-erase y x c.blocking_queue,
        count-erase y x c.dying_queue,
        count-erase y x c.coro_pool_tl,
      );
      counted = ground (arith, counted, ap (count x) e, ==_self x, length-erase x c.coro_pool_tl);
      within = omega (arith, within);
      ran = λ y r. ground (arith, ran y r, apart y, ap (count y) e, count-erase y x c.coro_queue);
      wakeable = λ y h. ground (
        arith,
        apart y,
        ap (count y) e,
        wakeable y,
        ==_iff x y,
        count-erase y x c.blocking_queue,
      );
    },
    ground (
      arith,
      apart x,
      ap (count x) e,
      ==_self x,
      count-erase x x c.coro_queue,
      count-erase x x c.blocking_queue,
      count-erase x x c.dying_queue,
      count-erase x x c.coro_pool_tl,
    ),
  )

  module _ (entry : Option ℕ) (arg stack_size : ℕ) where
    from_fresh :
        (xs : List ℕ) {r : Carrier × Option ℕ}
        → xs ≡ c.fresh
        → coro_new_inner entry arg stack_size c.carrier_id xs c ≡ some r
        → Made c r
    unfolding coro_new_inner coro_init
    from_fresh [] e q = subst (Made c) (some_eq q) (sound, (refl, λ y r. r))
    from_fresh (x ∷ xs) e q =
        let made = fresh-IsSound x xs (coro_init entry arg stack_size c.carrier_id) (sym e) in
        subst (Made c) (some_eq q) (made.0, (refl, λ y r. ground (arith, r)), made.1)

    from_pool :
        (x : ℕ) (xs : List ℕ) (k : Option CoroCntx) {r : Carrier × Option ℕ}
        → c.coro_pool_tl ≡ x ∷ xs
        → pool_take entry arg stack_size c.carrier_id true x k c ≡ some r
        → Made c r
    unfolding pool_take coro_reuse unlink
    from_pool x xs none e q = cc
    from_pool x xs (some k) e q =
        let made = pool-IsSound x xs _ e in
        subst (Made c) (some_eq q) (made.0, (refl, λ y r. ground (arith, r)), made.1)

    from_either :
        (xs : List ℕ) {r : Carrier × Option ℕ}
        → xs ≡ c.coro_pool_tl
        → coro_new_from entry arg stack_size c.carrier_id true xs c ≡ some r
        → Made c r
    unfolding coro_new_from
    from_either [] e q = from_fresh c.fresh refl q
    from_either (x ∷ xs) e q = from_pool x xs (c.coros x).cntx (sym e) q

    pub coro_new-Made :
        {r : Carrier × Option ℕ}
        → coro_new entry arg stack_size c.carrier_id true c ≡ some r
        → Made c r
    unfolding coro_new
    coro_new-Made q = from_either c.coro_pool_tl refl q

  -- A coroutine of no list, to the tail of the run queue.
  pub enqueued-IsSound :
      (x : ℕ) → places x c ≡ 0 → IsSound (record c { coro_queue = c.coro_queue ++ x ∷ [] })
  enqueued-IsSound x h = record {
    apart = λ y. ground (arith, apart y, h, ==_iff x y, count-append y c.coro_queue (x ∷ []));
    counted = counted;
    within = within;
    ran = λ y r. ground (arith, ran y r, h, ==_iff x y, count-append y c.coro_queue (x ∷ []));
    wakeable = wakeable;
  }
