-- ===== src/P7/Runtime/Queues/Spawned.antt =====
-- p7/p7impl.c: a coroutine that starts or that is reaped goes from one list to another.
use servcraft.Prelude.{
  ℕ, ◌-◌, ◌≤◌, ◌<◌, ◌≡◌, refl, Option, none, some, List, [], ◌∷◌, arith, length-append, count,
  count-append, count-erase, length-erase, ◌==◌, ==_iff, ==_self, ltb, if◌then◌else◌, Bool-cases,
  inl, inr, some_eq, Option-cases, leb,
}
use mathlib.Core.Path.{subst}
use servcraft.P7.Runtime.{CoroRq, Carrier, unlink}
use servcraft.P7.Runtime.Coroutines.{coro_delete}
use servcraft.P7.Runtime.Requests.{spawn, start_new, enqueue_new, spawn_all, rq_delete}
use servcraft.P7.Runtime.Schedule.{reap, reap_one, reap_all}
use servcraft.P7.Runtime.Queues.{places, IsSound, beside-IsSound}
use servcraft.P7.Runtime.Queues.New.{Keeps, Made, coro_new-Made, enqueued-IsSound}

module _ {c : Carrier} (sound : IsSound c) where
  open sound use {apart, counted, within, ran, wakeable}

  started-Keeps :
      (entry : Option ℕ) (arg stack_size : ℕ) (o : Option (Carrier × Option ℕ)) {d : Carrier}
      → ((r : Carrier × Option ℕ) → o ≡ some r → Made c r)
      → start_new o ≡ some d
      → IsSound d × Keeps c d
  unfolding start_new enqueue_new
  started-Keeps entry arg stack_size none h q = cc
  started-Keeps entry arg stack_size (some (b, none)) h q = cc
  started-Keeps entry arg stack_size (some (b, some x)) h q =
      let made = h (b, some x) refl in
      subst (λ d. IsSound d × Keeps c d) (some_eq q)
        (enqueued-IsSound made.0 x made.2, (made.1.0, made.1.1))

  -- What p7_coro_new gives, put to the tail of the run queue.
  pub spawn-Keeps :
      (entry : Option ℕ) (arg stack_size : ℕ) {d : Carrier}
      → spawn entry arg stack_size c ≡ some d
      → IsSound d × Keeps c d
  unfolding spawn
  spawn-Keeps entry arg stack_size q =
      started-Keeps entry arg stack_size _ (λ r e. coro_new-Made sound entry arg stack_size e) q

  rq_delete-IsSound : (rq : CoroRq) → IsSound (rq_delete rq c)
  unfolding rq_delete
  rq_delete-IsSound rq =
      elim (Bool-cases (leb (c.carriers rq.from).rq_pool_size (c.carriers rq.from).rq_pool_cap)) [
        | inl room ↦ rw room (beside-IsSound sound _ _ _ _ _ _)
        | inr full ↦ rw full sound
      ]

  -- A coroutine that stands in no list goes to the pool, or its memory to the allocator.
  retire-IsSound : (x : ℕ) → places x c ≡ 0 → IsSound (coro_delete x c)
  unfolding coro_delete
  retire-IsSound x h = elim (Bool-cases (ltb c.coro_pool_size c.coro_pool_cap)) [
    | inl room ↦ rw room record {
      apart = λ y. ground (arith, h, apart y, ==_iff x y, count-append y c.coro_pool_tl (x ∷ []));
      counted = omega (arith, counted, length-append c.coro_pool_tl (x ∷ []));
      within = ground (arith, room);
      ran = ran;
      wakeable = λ y q. ground (arith, wakeable y q, h, ==_iff x y);
    }
    | inr full ↦ rw full record {
      apart = λ y. ground (arith, h, apart y, ==_iff x y, count-append y c.fresh (x ∷ []));
      counted = counted;
      within = within;
      ran = ran;
      wakeable = λ y q. ground (arith, wakeable y q, h, ==_iff x y);
    }
  ]

  -- A dying coroutine leaves its list.
  bury-IsSound :
      (x : ℕ) → 0 < count x c.dying_queue → IsSound (unlink x c) × (places x (unlink x c) ≡ 0)
  unfolding unlink
  bury-IsSound x h = (
    record {
      apart = λ y. ground (
        arith,
        apart y,
        count-erase y x c.coro_queue,
        count-erase y x c.blocking_queue,
        count-erase y x c.dying_queue,
        count-erase y x c.coro_pool_tl,
      );
      counted = ground (arith, counted, apart x, h, length-erase x c.coro_pool_tl);
      within = within;
      ran = λ y r.
          ground (arith, ran y r, apart y, apart x, h, ==_iff x y, count-erase y x c.coro_queue);
      wakeable = λ y q. ground (arith, wakeable y, apart y, count-erase y x c.blocking_queue);
    },
    ground (
      arith,
      apart x,
      ==_self x,
      count-erase x x c.coro_queue,
      count-erase x x c.blocking_queue,
      count-erase x x c.dying_queue,
      count-erase x x c.coro_pool_tl,
    ),
  )

-- The body of the loop over the dying.
reap_one-IsSound :
    {c : Carrier} → IsSound c → (x : ℕ) → 0 < count x c.dying_queue → IsSound (reap_one x c)
unfolding reap_one
reap_one-IsSound {c} sound x h = elim (Bool-cases (((unlink x c).coros x).decay == 0)) [
  | inl forgotten ↦
      rw forgotten (retire-IsSound (bury-IsSound sound x h).0 x (bury-IsSound sound x h).1)
  | inr held ↦ rw held (bury-IsSound sound x h).0
]

-- The dying queue loses the coroutine, and nothing else.
dying-reap_one :
    (c : Carrier) (x y : ℕ)
    → count y (reap_one x c).dying_queue
      ≡ (if x == y then count y c.dying_queue - 1 else count y c.dying_queue)
unfolding reap_one coro_delete unlink
dying-reap_one c x y = ground (arith, count-erase y x c.dying_queue)

reap_all-IsSound :
    (xs : List ℕ) {c : Carrier}
    → IsSound c
    → ((y : ℕ) → count y xs ≤ count y c.dying_queue)
    → IsSound (reap_all xs c)
unfolding reap_all
reap_all-IsSound [] sound h = sound
reap_all-IsSound (x ∷ xs) {c} sound h =
    reap_all-IsSound xs (reap_one-IsSound sound x (ground (arith, h x, ==_self x)))
      (λ y. ground (arith, h y, dying-reap_one c x y))

pub reap-IsSound : {c : Carrier} → IsSound c → IsSound (reap c)
unfolding reap
reap-IsSound {c} sound = reap_all-IsSound c.dying_queue sound (λ y. omega arith)

pub spawn_all-IsSound :
    (rqs : List CoroRq) {c d : Carrier} → IsSound c → spawn_all rqs c ≡ some d → IsSound d
unfolding spawn_all
spawn_all-IsSound [] sound e = subst IsSound (some_eq e) sound
spawn_all-IsSound (rq ∷ rqs) {c} {d} sound e =
    elim (Option-cases (spawn rq.entry rq.arg rq.stack_nunits c)) [
      | inl fault ↦ cc (rw fault at e)
      | inr (made, ok) ↦
          spawn_all-IsSound rqs
            (rq_delete-IsSound (spawn-Keeps sound rq.entry rq.arg rq.stack_nunits ok).0 rq)
            (rw ok at e)
    ]
