-- ===== src/P7r/Scheduler.antt =====
-- p7r/p7r_uthread.c and p7r/p7r_uthread_def.h: the scheduler of one carrier: its queues of uthreads
-- and its requests, and the choice of the next uthread. Uthreads and functions stand for their addresses, a ring for the
-- sequence of its entries. The kernel, the tree of timers, the message buffers and the stacks enter
-- as what they give; none is a null pointer that is followed.
pub mod Bus
pub mod Lifespan
pub mod Queues
pub mod Turn
pub mod Steps
pub mod Laws
use servcraft.Prelude.{
  ℕ, ◌+◌, ◌-◌, ◌%◌, ◌^◌, Bool, true, false, ◌&&◌, not, Option, none, some, List, [], ◌∷◌, ◌++◌,
  ◌==◌, ltb, leb, is_nil, if◌then◌else◌, is_some, erase, update,
}

-- The status of a uthread.
pub data UthreadStatus : Type 0 where
  prelaunch : UthreadStatus
  running : UthreadStatus
  limbo : UthreadStatus
  dying : UthreadStatus
  blocking : UthreadStatus

-- struct p7r_uthread, which lies on its own stack.
pub record Uthread : Type 0 where
  pub scheduler_index : ℕ
  pub user_entrance : ℕ
  pub user_argument : ℕ
  pub status : UthreadStatus
  pub future : Option ℕ

-- struct p7r_uthread_request; one with a null entrance is no request, `none`.
pub record Request : Type 0 where
  pub user_entrance : ℕ
  pub user_argument : ℕ
  pub user_argument_dtor : Option ℕ
  pub future : Option ℕ

-- struct p7r_scheduler, with the uthreads, and the stacks that its allocator still gives.
pub record Scheduler : Type 0 where
  pub index : ℕ
  pub request_queue : List Request
  pub running_queue : List ℕ
  pub blocking_queue : List ℕ
  pub dying_queue : List ℕ
  pub current : Option ℕ
  pub tokens : ℕ
  pub consumed : Bool
  pub swarm_enabled : Bool
  pub max_tokens : ℕ
  pub uthreads : ℕ → Uthread
  pub stacks : List ℕ

abbrev pub store : ℕ → Uthread → Scheduler → Scheduler
store x u s = record s { uthreads = update s.uthreads x u }

-- p7r_uthread_detach: the uthread leaves the queue that it stands in.
unfoldable pub detach : ℕ → Scheduler → Scheduler
detach x s = record s {
  running_queue = erase x s.running_queue;
  blocking_queue = erase x s.blocking_queue;
  dying_queue = erase x s.dying_queue;
}

abbrev pub is_running : UthreadStatus → Bool
is_running running = true
is_running prelaunch = false
is_running limbo = false
is_running dying = false
is_running blocking = false

-- p7r_uthread_reenable.
unfoldable pub reenable : ℕ → Scheduler → Scheduler
reenable x s =
    let d = detach x s in
    if is_running (s.uthreads x).status
    then s
    else store x (record (s.uthreads x) { status = running })
        (record d { running_queue = d.running_queue ++ x ∷ [] })

-- p7r_uthread_init, on the memory of a stack: the status is not among what it writes.
unfoldable pub uthread_init : ℕ → ℕ → ℕ → Uthread → Uthread
uthread_init scheduler_index user_entrance user_argument u = record u {
  scheduler_index = scheduler_index;
  user_entrance = user_entrance;
  user_argument = user_argument;
}

-- sched_cherry_pick.
unfoldable pub pick_from : List Request → Scheduler → Scheduler × Option Request
pick_from [] s = (s, none)
pick_from (q ∷ qs) s = (record s { request_queue = qs }, some q)

unfoldable pub cherry_pick : Scheduler → Scheduler × Option Request
cherry_pick s = pick_from s.request_queue s

-- sched_uthread_from_request, by the stacks: with none left the future is written through the null
-- pointer, before the test for it.
unfoldable pub from_request : List ℕ → Request → Scheduler → Option (Scheduler × ℕ)
from_request [] q s = none
from_request (x ∷ xs) q s = some (
  store x
      (record (uthread_init s.index q.user_entrance q.user_argument (s.uthreads x)) {
        future = q.future;
      })
      (record s { stacks = xs }),
  x,
)

-- sched_uthread_from_request, and list_add_tail to the running queue.
unfoldable pub enqueue : Option (Scheduler × ℕ) → Option Scheduler
enqueue none = none
enqueue (some (s, x)) = some (record s { running_queue = s.running_queue ++ x ∷ [] })

unfoldable pub launch : Request → Scheduler → Option Scheduler
launch q s = enqueue (from_request s.stacks q s)

-- swarm_sched_available: whether it is, and the tokens left.
unfoldable pub swarm_available : Scheduler → Bool
swarm_available s = s.swarm_enabled && not (s.tokens == 0)

-- swarm_sched_refill.
unfoldable pub swarm_refill : Scheduler → Scheduler
swarm_refill s = if ltb s.tokens s.max_tokens then record s { tokens = s.tokens + 1 } else s

-- The first part of sched_resched_target: the uthread that ran last goes to the tail.
unfoldable pub rotate : Option ℕ → Scheduler → Scheduler
rotate none s = s
rotate (some x) s = let d = detach x s in record d { running_queue = d.running_queue ++ x ∷ [] }

-- The end of sched_resched_target: the first of the running queue. The callers launch or have
-- tested that there is one.
unfoldable pub choose : List ℕ → Scheduler → Option (Scheduler × Option ℕ)
choose [] s = none
choose (x ∷ xs) s = some (record s { current = some x }, some x)

unfoldable pub choose_first : Option Scheduler → Option (Scheduler × Option ℕ)
choose_first none = none
choose_first (some s) = choose s.running_queue s

-- The middle of sched_resched_target, where a request is looked for.
unfoldable pub resched_request : Scheduler × Option Request → Option (Scheduler × Option ℕ)
resched_request (s, none) = some (s, none)
resched_request (s, some q) = choose_first (launch q s)

-- sched_resched_target after the first part: the scheduler and the target, which may be null.
unfoldable pub resched_from : Scheduler → Option (Scheduler × Option ℕ)
resched_from r =
    let available = swarm_available r in
    let spent = if available then record r { tokens = r.tokens - 1 } else r in
    if available
    then resched_request (cherry_pick spent)
    else if is_nil r.running_queue
    then resched_request (cherry_pick spent)
    else choose_first (some spent)

-- sched_resched_target.
unfoldable pub resched_target : Scheduler → Option (Scheduler × Option ℕ)
resched_target s = resched_from (rotate s.current s)
