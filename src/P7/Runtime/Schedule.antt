-- ===== src/P7/Runtime/Schedule.antt =====
-- p7/p7impl.c: one turn of sched_loop.
pub mod Laws
use servcraft.Prelude.{
  ℕ, ◌+◌, ◌-◌, ◌%◌, ◌^◌, Bool, true, false, ◌&&◌, Option, none, some, List, [], ◌∷◌, ◌++◌, ◌==◌,
  ltb, if◌then◌else◌, is_nil,
}
use servcraft.P7.DoubleQueue.{DoubleQueue}
use servcraft.P7.Runtime.{Carrier, CoroCntx, Coro, own, store, unlink}
use servcraft.P7.Runtime.Coroutines.{coro_activate, coro_delete}
use servcraft.P7.Runtime.Waking.{ReadyEvent, handle_events, expire_all}
use servcraft.P7.Runtime.Mail.{dispatch_all}
use servcraft.P7.Runtime.Requests.{and_then, drain_requests}

-- The timeout of epoll_wait: a negative number lets it wait for ever.
pub data Timeout : Type 0 where
  forever : Timeout
  millis : (n : ℕ) → Timeout

-- The int that a difference of two 64-bit times becomes.
unfoldable pub timeout_of : ℕ → Timeout
timeout_of n = if ltb (n % 2 ^ 32) (2 ^ 31) then millis (n % 2 ^ 32) else forever

-- Has the carrier nothing to run?
abbrev pub has_no_work : Carrier → Bool
has_no_work c =
    is_nil c.coro_queue && (is_nil (own c).rq_queues.queue_0 && is_nil (own c).rq_queues.queue_1)

-- How long epoll_wait may take, by the time of the earliest timer and the clock.
unfoldable pub ep_timeout : Bool → Option ℕ → ℕ → Timeout
ep_timeout idle none tval_before = if idle then forever else millis 0
ep_timeout idle (some tval) tval_before =
    if idle
    then (if ltb tval_before tval then timeout_of (tval - tval_before) else forever)
    else millis 0

-- The body of the loop over the dying: one that a sender by name has at hand is taken off the
-- list, and left.
unfoldable pub reap_one : ℕ → Carrier → Carrier
reap_one x c = let d = unlink x c in if (d.coros x).decay == 0 then coro_delete x d else d

unfoldable pub reap_all : List ℕ → Carrier → Carrier
reap_all [] c = c
reap_all (x ∷ xs) c = reap_all xs (reap_one x c)

unfoldable pub reap : Carrier → Carrier
reap c = reap_all c.dying_queue c

-- The run queue with the coroutine that ran last at its tail, if it is still the first.
unfoldable pub rotated : Option ℕ → List ℕ → List ℕ
rotated last [] = []
rotated none (x ∷ xs) = x ∷ xs
rotated (some last) (x ∷ xs) = if last == x then xs ++ x ∷ [] else x ∷ xs

-- The switch to a coroutine after p7_coro_activate, whose result is not looked at. A null context
-- is followed.
unfoldable pub switch_to : ℕ → Coro → Option CoroCntx → Carrier → Option Carrier
switch_to x co none c = none
switch_to x co (some k) c = some (store x co c)

unfoldable pub run : Bool → ℕ → Carrier → Option Carrier
run has_room x c =
    let co = coro_activate (record (c.coros x) { resched = false }) has_room in
    switch_to x co.0 co.0.cntx (record c { running = some x })

unfoldable pub run_first : Bool → List ℕ → Carrier → Option Carrier
run_first has_room [] c = some c
run_first has_room (x ∷ xs) c = run has_room x (record c { coro_queue = x ∷ xs })

-- The end of a turn: the first of the run queue, after the rotation.
unfoldable pub pick_next : Bool → Carrier → Option Carrier
pick_next has_room c = run_first has_room (rotated c.running c.coro_queue) c

-- What a turn takes from outside: the clock after the wait, the timer events that are peeked at,
-- what epoll_wait returned, and the outcome of the allocation of a context.
pub record Outside : Type 0 where
  pub tval_after : ℕ
  pub peeks : List ℕ
  pub ready : List ReadyEvent
  pub has_room : Bool

-- The body of the loop of sched_loop, up to the switch to a coroutine; none where a null pointer is
-- followed.
unfoldable pub sched_turn : Outside → Carrier → Option Carrier
sched_turn o c =
    let woken = handle_events o.ready (expire_all o.tval_after o.peeks c) in
    and_then (drain_requests woken) (λ (d : Carrier). pick_next o.has_room (reap (dispatch_all d)))
