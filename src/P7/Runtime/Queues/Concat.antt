-- ===== src/P7/Runtime/Queues/Concat.antt =====
-- p7/p7impl.c: p7_coro_concat blocks the running coroutine and starts the one that it waits for.
use servcraft.Prelude.{
  ℕ, ◌≡◌, ◌∙◌, Bool, true, false, Option, none, some, [], ◌∷◌, arith, count-append, count-erase,
  erase, ==_iff, Option-cases, update, inl, inr,
}
use servcraft.P7.Runtime.{Carrier, store, to_blocking_queue, unlink}
use servcraft.P7.Runtime.Coroutines.{coro_new}
use servcraft.P7.Runtime.Blocking.{blocking_point, concat, concat_with}
use servcraft.P7.Runtime.Queues.{places, IsSound, store-IsSound, blocking_point-IsSound}
use servcraft.P7.Runtime.Queues.New.{Made, coro_new-Made, enqueued-IsSound}
use servcraft.P7.Runtime.Queues.Ready.{IsReady}
use servcraft.P7.Runtime.Queues.Created.{first-IsReady, Keeps-IsReady}

-- One that stands in no list still does so when another one blocks.
places-blocking_point :
    (c : Carrier) (x last : ℕ)
    → IsSound c
    → c.running ≡ some last
    → places x c ≡ 0
    → places x (blocking_point last c) ≡ 0
unfolding blocking_point to_blocking_queue unlink
places-blocking_point c x last sound runs h = ground (
  arith,
  h,
  sound.ran last runs,
  ==_iff last x,
  count-append x (erase last c.blocking_queue) (last ∷ []),
  count-erase x last c.coro_queue,
  count-erase x last c.blocking_queue,
  count-erase x last c.dying_queue,
  count-erase x last c.coro_pool_tl,
)

concat_with-IsReady :
    (c : Carrier) (last : ℕ) (r : Carrier × Option ℕ)
    → IsReady c
    → c.running ≡ some last
    → Made c r
    → IsReady (concat_with last r).0
unfolding concat_with blocking_point
concat_with-IsReady c last (d, none) ready runs made = Keeps-IsReady c d ready.1 made
concat_with-IsReady c last (d, some x) ready runs made =
    let kept = Keeps-IsReady c d ready.1 (made.0, made.1) in
    let linked = record (d.coros x) { following = some last } in
    let stored = store-IsSound kept.0 x linked (λ q. kept.0.wakeable x q) in
    let picked : (update d.coros x linked last).resched ≡ false =
      ground (arith, kept.1 last (made.1.0 ∙ runs), ==_iff x last) in
    let blocked = blocking_point-IsSound stored last (made.1.0 ∙ runs) picked in
    let h = places-blocking_point (store x linked d) x last stored (made.1.0 ∙ runs) made.2 in
    (enqueued-IsSound blocked x h, λ y e. cc)

-- Where it succeeds the new coroutine is ready to run and the caller waits; where it does not, the
-- caller runs on.
pub concat-IsReady :
    {c d : Carrier} {ok : Bool}
    → IsReady c
    → (entry : Option ℕ) (arg stack_size last : ℕ) → c.running ≡ some last
    → concat entry arg stack_size last c ≡ some (d, ok)
    → IsReady d
unfolding concat
concat-IsReady {c} {d} {ok} ready entry arg stack_size last runs e =
    elim (Option-cases (coro_new entry arg stack_size c.carrier_id true c)) [
      | inl fault ↦ cc (rw (concat, fault) at e)
      | inr (r, made) ↦ first-IsReady (rw (concat, made) at e) (
          concat_with-IsReady c last r ready runs (coro_new-Made ready.0 entry arg stack_size made))
    ]
