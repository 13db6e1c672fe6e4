-- ===== src/P7/Runtime/Queues/Steps.antt =====
-- p7/p7impl.c: a carrier from its start on: turns of the scheduler, and what the coroutine that it
-- runs does in between.

use servcraft.Prelude.{ℕ, ◌≡◌, refl, Bool, Option, none, some, All}
use servcraft.P7.Runtime.{Msg, Carrier, Shared}
use servcraft.P7.Runtime.Coroutines.{limbo, retire}
use servcraft.P7.Runtime.Mail.{send_by_entity}
use servcraft.P7.Runtime.Requests.{create_request, CreateStatus}
use servcraft.P7.Runtime.Schedule.{Outside, sched_turn}
use servcraft.P7.Runtime.Blocking.{
  blocking_point, recv_begin, recv_end, iowrap_begin, iowrap_end, io_notify_begin, io_notify_end,
  concat,
}
use servcraft.P7.Runtime.Queues.Concat.{concat-IsReady}
use servcraft.P7.Runtime.Queues.{IsLive, beside-IsSound, blocking_point-IsSound}
use servcraft.P7.Runtime.Queues.Woken.{PipeAnswers, waiting}
use servcraft.P7.Runtime.Queues.Timed.{TimersAnswer}
use servcraft.P7.Runtime.Queues.Turn.{IsPicked, sched_turn-IsSound}
use servcraft.P7.Runtime.Queues.Created.{create_request-IsReady}
use servcraft.P7.Runtime.Queues.Ready.{
  Follows, limbo-IsSound, IsReady, send_by_entity-IsReady, recv_begin-IsReady, recv_end-IsReady,
  iowrap_begin-IsReady, iowrap_end-IsReady, io_notify_begin-IsReady, io_notify_end-IsReady,
}

-- What a carrier does at a time: a turn of the scheduler, or a part of a function that the running
-- coroutine calls, up to its switch or after it. Others write to its shared part meanwhile.
pub data Step (c : Carrier) : Carrier → Type 0 where
  turns :
      (o : Outside) {d : Carrier}
      → TimersAnswer c o.peeks
      → PipeAnswers c
      → All (λ x. IsLive x c) (waiting o.ready)
      → sched_turn o c ≡ some d
      → Step c d
  sends : (target : ℕ) (msg : Msg) → Step c (send_by_entity target msg c).0
  creates :
      (entry : Option ℕ) (arg stack_size : ℕ) (has_room : Bool) {d : Carrier} {st : CreateStatus}
      → create_request entry arg stack_size has_room c ≡ some (d, st)
      → Step c d
  blocks : (x : ℕ) → c.running ≡ some x → Step c (blocking_point x c)
  receives : (x : ℕ) → c.running ≡ some x → Step c (recv_begin x c).0
  received : (x : ℕ) (has_blocked : Bool) → c.running ≡ some x → Step c (recv_end x has_blocked c).0
  waits :
      (x fd : ℕ) (is_added : Bool) → c.running ≡ some x → Step c (iowrap_begin x fd is_added c).0
  waited : (x : ℕ) → c.running ≡ some x → Step c (iowrap_end x c).0
  notifies :
      (x fd : ℕ) (is_added : Bool) → c.running ≡ some x → Step c (io_notify_begin x fd is_added c).0
  notified : (x : ℕ) → c.running ≡ some x → Step c (io_notify_end x c).0
  concats :
      (entry : Option ℕ) (arg stack_size last : ℕ) {d : Carrier} {ok : Bool}
      → c.running ≡ some last
      → concat entry arg stack_size last c ≡ some (d, ok)
      → Step c d
  ends : (x : ℕ) → c.running ≡ some x → Follows c x (c.coros x).following → Step c (limbo x c)
  others : (carriers : ℕ → Shared) → Step c (record c { carriers = carriers })

no_one-IsPicked : (c : Carrier) → c.running ≡ none → IsPicked c
no_one-IsPicked c e x r = cc

running-limbo : (x : ℕ) (c : Carrier) → (limbo x c).running ≡ none
unfolding limbo retire
running-limbo x c = refl

running-blocking_point : (x : ℕ) (c : Carrier) → (blocking_point x c).running ≡ none
unfolding blocking_point
running-blocking_point x c = refl

Step-IsReady : {c d : Carrier} → Step c d → IsReady c → IsReady d
Step-IsReady (turns o t p w e) r = sched_turn-IsSound o r.0 t p w e
Step-IsReady (sends target msg) r = send_by_entity-IsReady r target msg
Step-IsReady (creates entry arg stack_size has_room e) r =
    create_request-IsReady r entry arg stack_size has_room e
Step-IsReady {c} (blocks x runs) r = (
  blocking_point-IsSound r.0 x runs (r.1 x runs),
  no_one-IsPicked (blocking_point x c) (running-blocking_point x c),
)
Step-IsReady (receives x runs) r = recv_begin-IsReady r x runs
Step-IsReady (received x has_blocked runs) r = recv_end-IsReady r x runs has_blocked
Step-IsReady (waits x fd is_added runs) r = iowrap_begin-IsReady r x runs fd is_added
Step-IsReady (waited x runs) r = iowrap_end-IsReady r x runs
Step-IsReady (notifies x fd is_added runs) r = io_notify_begin-IsReady r x runs fd is_added
Step-IsReady (notified x runs) r = io_notify_end-IsReady r x runs
Step-IsReady (concats entry arg stack_size last runs e) r =
    concat-IsReady r entry arg stack_size last runs e
Step-IsReady {c} (ends x runs h) r =
    (limbo-IsSound r.0 x runs h, no_one-IsPicked (limbo x c) (running-limbo x c))
Step-IsReady (others carriers) r = (beside-IsSound r.0 _ _ _ _ _ _, r.1)

-- The states that a carrier gets to from its start.
pub data Reach (start : Carrier) : Carrier → Type 0 where
  here : Reach start start
  later : {c d : Carrier} → Step c d → Reach start c → Reach start d

-- From a sound start on, in every state that a carrier gets to, each coroutine stands in at most
-- one of its lists, the pool is counted and within its capacity, the running coroutine is in the
-- run queue, and each blocked one can be woken.
pub Reach-IsReady : {start c : Carrier} → IsReady start → Reach start c → IsReady c
Reach-IsReady r here = r
Reach-IsReady r (later step before) = Step-IsReady step (Reach-IsReady r before)
