-- ===== src/Tests/Schedulers.antt =====
-- A scheduler with two uthreads, of which the first runs, a request and a free stack.
use servcraft.Prelude.{
  ◌&&◌, not, ◌==◌, ◌<◌, ℕ, ◌≡◌, ◌-◌, refl, true, false, none, some, [], ◌∷◌, ◌++◌, arith, ◌==◌,
  if◌then◌else◌, count, ◌≤◌, Option,
}
use servcraft.P7r.Scheduler.{
  running, blocking, Uthread, Scheduler, resched_target, launch, from_request, enqueue,
}
use servcraft.P7r.Scheduler.Bus.{delegation, notification, Bus}
use servcraft.P7r.Scheduler.Lifespan.{create_home, start_main, with_policy, scheduler_init}
use servcraft.P7r.Scheduler.Steps.{first, Reach, here, later, creates, first-Reach}
use servcraft.P7r.Scheduler.Queues.{IsSound}
use servcraft.P7r.Scheduler.Laws.{resched_target-Outcome}

abbrev uthread : Uthread
uthread = record {
  scheduler_index = 0;
  user_entrance = 1;
  user_argument = 2;
  status = running;
  future = none;
}

abbrev scheduler : Scheduler
scheduler = record {
  index = 0;
  request_queue = [];
  running_queue = 10 ∷ 11 ∷ [];
  blocking_queue = 12 ∷ [];
  dying_queue = 13 ∷ [];
  current = some 10;
  tokens = 2;
  consumed = true;
  swarm_enabled = true;
  max_tokens = 2;
  uthreads = λ (x : ℕ). if x == 12 then record uthread { status = blocking } else uthread;
  stacks = 14 ∷ [];
}

-- The file of 12 is ready, and another carrier has sent a request.
abbrev bus : Bus
bus = record {
  current_time = 5;
  peeks = [];
  events = some (notification ∷ delegation false 12 ∷ []);
  boxes =
      (
        some (
            record {
              user_entrance = 3;
              user_argument = 4;
              user_argument_dtor = none;
              future = none;
            }
            ∷ []),
        true,
      )
      ∷ [];
}

-- The main uthread 10 makes another one on the first free stack, 11.
abbrev start : Scheduler
start = first 0 (11 ∷ 12 ∷ []) 0 (λ x. uthread) false 0 10

abbrev or_start : Option Scheduler → Scheduler
or_start none = start
or_start (some s) = s

abbrev made : Scheduler
made = or_start (create_home 3 4 start)

made-create : create_home 3 4 start ≡ some made
unfolding create_home launch from_request enqueue start_main with_policy scheduler_init
made-create = refl

made-Reach : Reach start made
made-Reach = later (creates 3 4 made-create) here

distinct_stacks : (x : ℕ) → count x (10 ∷ 11 ∷ 12 ∷ []) ≤ 1
distinct_stacks x = ground arith

first-Reach_example : IsSound made
first-Reach_example =
    first-Reach 0 (11 ∷ 12 ∷ []) 0 (λ x. uthread) false 0 10 distinct_stacks made-Reach

resched_target-Outcome_example :
    ((scheduler.swarm_enabled && not (2 == 0)) ≡ false
      → resched_target scheduler
        ≡ some
            (record scheduler { running_queue = 11 ∷ [] ++ 10 ∷ []; current = some 11 }, some 11))
    × (scheduler.swarm_enabled ≡ true
        → 0 < 2
        → scheduler.request_queue ≡ []
        → resched_target scheduler
          ≡ some (record scheduler { running_queue = 11 ∷ [] ++ 10 ∷ []; tokens = 2 - 1 }, none))
resched_target-Outcome_example = resched_target-Outcome scheduler 10 11 [] refl refl refl refl
