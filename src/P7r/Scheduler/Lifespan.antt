-- ===== src/P7r/Scheduler/Lifespan.antt =====
-- p7r/p7r_uthread.c: what a uthread does to its scheduler when it blocks, yields, ends or makes another
-- one, and the turn of a carrier.
use servcraft.Prelude.{ℕ, ◌+◌, ◌%◌, ◌^◌, Bool, true, false, Option, none, some, List, [], ◌∷◌, ◌++◌}
use servcraft.P7r.Scheduler.{
  Uthread, Request, Scheduler, store, detach, cherry_pick, launch, swarm_refill, resched_target,
  limbo, dying, blocking, running,
}
use servcraft.P7r.Scheduler.Bus.{Bus, bus_refresh}

-- p7r_blocking_point up to its loop, for the running uthread.
unfoldable pub block : ℕ → Scheduler → Scheduler
block x s =
    let d = detach x s in
    store x (record (s.uthreads x) { status = blocking })
      (record d { blocking_queue = d.blocking_queue ++ x ∷ []; current = none })

-- The end of p7r_uthread_lifespan, with no request left.
unfoldable pub die : ℕ → Scheduler → Scheduler
die x s =
    let d = detach x s in
    store x (record (s.uthreads x) { status = dying })
      (record d { dying_queue = d.dying_queue ++ x ∷ []; current = none })

-- The head of each round of p7r_uthread_lifespan, by the uthread that was switched to: at its start,
-- and after the switch that follows a request that it took over.
unfoldable pub begin_round : ℕ → Scheduler → Scheduler
begin_round x s = store x (record (s.uthreads x) { status = running }) s

-- p7r_uthread_lifespan after the entrance returns: the uthread takes a request over, or dies.
unfoldable pub reincarnate : ℕ → Scheduler × Option Request → Scheduler
reincarnate x (s, none) = die x s
reincarnate x (s, some q) =
    store x
      (record (s.uthreads x) { user_entrance = q.user_entrance; user_argument = q.user_argument }) s

unfoldable pub finish : ℕ → Scheduler → Scheduler
finish x s = reincarnate x (cherry_pick (store x (record (s.uthreads x) { status = limbo }) s))

-- The target of a new uthread, round the carriers: next_balance_index, a 32-bit number.
abbrev pub next_balance : ℕ → ℕ
next_balance balance_index = (balance_index + 1) % 2 ^ 32

-- p7r_uthread_create_ on the own carrier. The destructor is not among what the request gets.
unfoldable pub create_home : ℕ → ℕ → Scheduler → Option Scheduler
create_home entrance argument s =
    launch
      record {
        user_entrance = entrance;
        user_argument = argument;
        user_argument_dtor = none;
        future = none;
      }
      s

-- The request in a turn of p7r_carrier_lifespan.
unfoldable pub carrier_request : Scheduler × Option Request → Option Scheduler
carrier_request (s, none) = some s
carrier_request (s, some q) = launch q s

unfoldable pub carrier_target : Option Scheduler → Option (Scheduler × Option ℕ)
carrier_target none = none
carrier_target (some s) = resched_target s

-- The body of the loop of p7r_carrier_lifespan, up to the switch.
unfoldable pub carrier_turn : Bus → Scheduler → Option (Scheduler × Option ℕ)
carrier_turn b s = carrier_target (carrier_request (cherry_pick (bus_refresh b s).0))

-- The switch to a target. A null target is followed.
unfoldable pub switch : Option (Scheduler × Option ℕ) → Option Scheduler
switch none = none
switch (some (s, none)) = none
switch (some (s, some x)) = some s

-- The switch in p7r_uthread_lifespan, after a request is taken over: sched_bus_refresh, then
-- sched_resched_target. A uthread that the switch comes back to here goes on with begin_round.
unfoldable pub hop : Bus → Scheduler → Option Scheduler
hop b s = switch (resched_target (bus_refresh b s).0)

-- p7r_yield.
unfoldable pub yield_now : Bus → Scheduler → Option Scheduler
yield_now b s = hop b (swarm_refill s)

-- The test of the loop of p7r_blocking_point, and the rounds left.
unfoldable pub after_round :
    (Scheduler → Option (Scheduler × ℕ)) → Option (Scheduler × Option ℕ) → Option (Scheduler × ℕ)
after_round again none = none
after_round again (some (s, none)) = again s
after_round again (some (s, some x)) = some (s, x)

-- The loop of p7r_blocking_point, over what its rounds meet: the target, or none where the rounds end
-- before there is one.
unfoldable pub await : List Bus → Scheduler → Option (Scheduler × ℕ)
await [] s = none
await (b ∷ bs) s = after_round (await bs) (resched_target (bus_refresh b s).0)

-- p7r_blocking_point, up to the switch.
unfoldable pub blocking_point : ℕ → List Bus → Scheduler → Option (Scheduler × ℕ)
blocking_point x bs s = await bs (block x s)

-- What p7r_scheduler_init gives, before its stacks are in use. The tokens are not among what it
-- writes.
unfoldable pub scheduler_init : ℕ → List ℕ → ℕ → (ℕ → Uthread) → Scheduler
scheduler_init index stacks tokens uthreads = record {
  index = index;
  request_queue = [];
  running_queue = [];
  blocking_queue = [];
  dying_queue = [];
  current = none;
  tokens = tokens;
  consumed = true;
  swarm_enabled = false;
  max_tokens = 0;
  uthreads = uthreads;
  stacks = stacks;
}

-- The policy that p7r_init sets.
unfoldable pub with_policy : Bool → ℕ → Scheduler → Scheduler
with_policy enabled max_tokens s = record s { swarm_enabled = enabled; max_tokens = max_tokens }

-- The end of p7r_init on the first carrier: the main uthread, whose status is running from the
-- start, is the running one.
unfoldable pub start_main : ℕ → Scheduler → Scheduler
start_main main s = record s { running_queue = s.running_queue ++ main ∷ []; current = some main }
