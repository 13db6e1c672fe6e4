-- ===== src/P7/Runtime/Requests.antt =====
-- p7/p7impl.c: requests for new coroutines, which go round the carriers: coro_create_request,
-- p7_coro_rq_new, p7_coro_rq_delete, and the drain of them in sched_loop.
pub mod Laws
use servcraft.Prelude.{
  ℕ, zero, suc, ◌+◌, ◌-◌, ◌%◌, ◌^◌, Bool, true, false, Option, none, some, List, [], ◌∷◌, ◌++◌,
  ◌==◌, leb, if◌then◌else◌,
}
use servcraft.P7.DoubleQueue.{post, turn, pending, drained}
use servcraft.P7.Runtime.{CoroRq, Carrier, Shared, wakeup, own}
use servcraft.P7.Runtime.Coroutines.{coro_new}
use servcraft.P7.Runtime.Waking.{share}
use servcraft.P7.Runtime.Mail.{notify}

-- p7_coro_rq_new_; has_room is the outcome of the allocation.
unfoldable pub rq_new_inner : Option ℕ → ℕ → ℕ → Bool → Carrier → Option CoroRq
rq_new_inner entry arg stack_size has_room c =
    if has_room
    then some record { entry = entry; arg = arg; stack_nunits = stack_size; from = c.carrier_id }
    else none

-- p7_coro_rq_new by one's own pool; a request from the pool keeps its from.
unfoldable pub rq_new_from :
    Option ℕ → ℕ → ℕ → Bool → List CoroRq → Carrier → Carrier × Option CoroRq
rq_new_from entry arg stack_size has_room [] c = (c, rq_new_inner entry arg stack_size has_room c)
rq_new_from entry arg stack_size has_room (rq ∷ rqs) c = (
  share c.carrier_id (record (own c) { rq_pool_tl = rqs; rq_pool_size = (own c).rq_pool_size - 1 })
      c,
  some (record rq { stack_nunits = stack_size; entry = entry; arg = arg }),
)

unfoldable pub rq_new : Option ℕ → ℕ → ℕ → Bool → Carrier → Carrier × Option CoroRq
rq_new entry arg stack_size has_room c =
    rq_new_from entry arg stack_size has_room (own c).rq_pool_tl c

-- p7_coro_rq_delete: to the pool of the carrier that made the request, or freed.
unfoldable pub rq_delete : CoroRq → Carrier → Carrier
rq_delete rq c =
    let s = c.carriers rq.from in
    if leb s.rq_pool_size s.rq_pool_cap
    then share rq.from
        (record s { rq_pool_size = s.rq_pool_size + 1; rq_pool_tl = s.rq_pool_tl ++ rq ∷ [] }) c
    else c

-- list_add_tail to the run queue of what p7_coro_new returned. A null coroutine is followed.
unfoldable pub enqueue_new : Carrier × Option ℕ → Option Carrier
enqueue_new (c, none) = none
enqueue_new (c, some x) = some (record c { coro_queue = c.coro_queue ++ x ∷ [] })

unfoldable pub start_new : Option (Carrier × Option ℕ) → Option Carrier
start_new none = none
start_new (some r) = enqueue_new r

-- A new coroutine on this carrier, at the tail of the run queue; none where a null pointer is
-- followed.
unfoldable pub spawn : Option ℕ → ℕ → ℕ → Carrier → Option Carrier
spawn entry arg stack_size c = start_new (coro_new entry arg stack_size c.carrier_id true c)

abbrev pub and_then : {A : Type 0} {B : Type 0} → Option A → (A → Option B) → Option B
and_then none f = none
and_then (some a) f = f a

-- The loop over the requests.
unfoldable pub spawn_all : List CoroRq → Carrier → Option Carrier
spawn_all [] c = some c
spawn_all (rq ∷ rqs) c =
    and_then (spawn rq.entry rq.arg rq.stack_nunits c)
      (λ (d : Carrier). spawn_all rqs (rq_delete rq d))

-- The turn of the request queue, and its drain.
unfoldable pub drain_requests : Carrier → Option Carrier
drain_requests c =
    let s = own c in
    let q = turn s.rq_queues in
    spawn_all (pending q) (share c.carrier_id (record s { rq_queues = drained q }) c)

-- What coro_create_request returns: -1, 0 for another carrier, 1 for one's own.
pub data CreateStatus : Type 0 where
  refused : CreateStatus
  elsewhere : CreateStatus
  at_home : CreateStatus

-- The request, to the queue of the carrier i, and a message to its pipe.
unfoldable pub hand_over : ℕ → Carrier × Option CoroRq → Carrier × CreateStatus
hand_over i (c, none) = (c, refused)
hand_over i (c, some rq) =
    let s = c.carriers i in
    (notify i wakeup (share i (record s { rq_queues = post s.rq_queues rq }) c), elsewhere)

-- The carrier whose turn it is.
abbrev pub next_load : Carrier → ℕ
next_load c = (c.next_carrier + 1) % 2 ^ 32 % c.ncarriers

abbrev pub with_status : CreateStatus → Option Carrier → Option (Carrier × CreateStatus)
with_status st none = none
with_status st (some c) = some (c, st)

-- coro_create_request: none where a null pointer is followed.
unfoldable pub create_request : Option ℕ → ℕ → ℕ → Bool → Carrier → Option (Carrier × CreateStatus)
create_request entry arg stack_size has_room c =
    let i = next_load c in
    let d : Carrier = record c { next_carrier = (c.next_carrier + 1) % 2 ^ 32 } in
    if (c.carriers i).alive
    then (if i == c.carrier_id
        then with_status at_home (spawn entry arg stack_size d)
        else some (hand_over i (rq_new entry arg stack_size has_room d)))
    else some (d, refused)

-- The loops that write to a pipe, with the number of writes that fail before one succeeds: how
-- often they yield, once in P7_SEND_TIMES failures.
unfoldable pub write_yields : ℕ → ℕ → ℕ → ℕ
write_yields send_times zero nsendtimes = 0
write_yields send_times (suc failures) nsendtimes =
    let again = nsendtimes + 1 == send_times in
    (if again then 1 else 0)
    + write_yields send_times failures (if again then 0 else nsendtimes + 1)
