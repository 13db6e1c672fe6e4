-- ===== src/P7/Runtime/Lifetime/Laws.antt =====
-- p7/p7impl.c: the runtime from p7_init on, and the failures of p7_carrier_prepare.
use servcraft.Prelude.{
  ℕ, ◌≤◌, ◌≡◌, ◌↔◌, refl, Bool, true, false, ◌&&◌, List, ◌∷◌, arith, count, ==_self,
}
use servcraft.P7.Runtime.{Coro, TimerEvent, Carrier}
use servcraft.P7.Runtime.Coroutines.{coro_init}
use servcraft.P7.Runtime.Lifetime.{
  new_carrier, main_ctlflow, init_real, prepared, null, carrier_prepare,
}
use servcraft.P7.Runtime.Queues.Steps.{Reach, Reach-IsReady}
use servcraft.P7.Runtime.Queues.Ready.{IsReady}

module _ (nthreads : ℕ) (coros : ℕ → Coro) (timers : ℕ → TimerEvent) (x : ℕ) (fresh : List ℕ)
    (apart : (y : ℕ) → count y (x ∷ fresh) ≤ 1) where
  init_real-IsReady : IsReady (init_real nthreads coros timers x fresh)
  unfolding init_real new_carrier main_ctlflow coro_init
  init_real-IsReady = (
    record {
      apart = λ y. omega (arith, apart y);
      counted = refl;
      within = omega arith;
      ran = λ y r. ground (arith, r, ==_self x);
      wakeable = λ y h. absurd (omega arith);
    },
    λ y r. ground (arith, r, ==_self x),
  )

  -- Where the memory of the main coroutine and the free addresses are distinct, in every state
  -- that the first carrier gets to after p7_init, as long as what wakes a coroutine names a live one
  -- and what a coroutine that ends resumes still lives: each coroutine stands in at most one of the
  -- lists, the pool is counted and within its capacity, the running coroutine is in the run queue
  -- and was just picked, and each one in the queue of the blocked can be woken.
  pub init_real-Reach :
      {c : Carrier} → Reach (init_real nthreads coros timers x fresh) c → IsReady c
  init_real-Reach r = Reach-IsReady init_real-IsReady r

-- p7_carrier_prepare returns a carrier just when all that it asks for is there, and null just when
-- the memory of the carrier itself is not: its caller cannot tell the other failures.
pub carrier_prepare-Outcome :
    (has_carrier has_events has_limbo has_mailboxes has_epoll : Bool)
    → let r = carrier_prepare has_carrier has_events has_limbo has_mailboxes has_epoll in
      ((r ≡ prepared)
        ↔ ((has_carrier && (has_events && (has_limbo && (has_mailboxes && has_epoll)))) ≡ true))
      × ((r ≡ null) ↔ (has_carrier ≡ false))
unfolding carrier_prepare
carrier_prepare-Outcome a b c d e = ground arith
