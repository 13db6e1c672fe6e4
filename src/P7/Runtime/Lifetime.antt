-- ===== src/P7/Runtime/Lifetime.antt =====
-- p7/p7impl.c: p7_carrier_prepare, p7_init and p7_finalize.
pub mod Laws
use servcraft.Prelude.{
  ℕ, zero, suc, ◌+◌, Bool, true, false, ◌&&◌, Option, none, some, List, [], ◌∷◌, ◌++◌, ◌==◌,
  if◌then◌else◌, is_some,
}
use servcraft.P7.DoubleQueue.{init}
use servcraft.P7.Runtime.{
  Coro, Msg, Carrier, Shared, TimerEvent, UserCall, destroy, cleanup, store, own,
}
use servcraft.P7.Runtime.Coroutines.{coro_init, cntx_new}

-- The shared part of a new carrier, among n of them; P7_RQ_POOL_CAP is 128.
unfoldable pub new_shared : ℕ → Shared
new_shared n = record {
  alive = true;
  rq_pool_tl = [];
  rq_pool_cap = 128;
  rq_pool_size = 0;
  rq_queues = init;
  mailboxes = λ (i : ℕ). init;
  nmailboxes = n;
  condpipe = [];
}

-- A new carrier, with the memory that it finds; P7_CORO_POOL_CAP is 64.
unfoldable pub new_carrier : ℕ → ℕ → (ℕ → Coro) → (ℕ → TimerEvent) → List ℕ → (ℕ → Shared) → Carrier
new_carrier carrier_id n coros timers fresh carriers = record {
  carrier_id = carrier_id;
  coro_queue = [];
  blocking_queue = [];
  dying_queue = [];
  coro_pool_tl = [];
  coro_pool_cap = 64;
  coro_pool_size = 0;
  running = none;
  localbox = [];
  timer_queue = [];
  coros = coros;
  timers = timers;
  fresh = fresh;
  carriers = carriers;
  ncarriers = n;
  next_carrier = 0;
  calls = [];
}

-- What p7_carrier_prepare returns: a carrier, null, or a pointer to memory that it has freed.
pub data Prepared : Type 0 where
  prepared : Prepared
  null : Prepared
  freed : Prepared
  null_followed : Prepared

-- The outcome of p7_carrier_prepare, by that of the allocations of the carrier, its event queue,
-- its limbo and its mailboxes, and that of epoll_create.
unfoldable pub carrier_prepare : Bool → Bool → Bool → Bool → Bool → Prepared
carrier_prepare has_carrier has_events has_limbo has_mailboxes has_epoll =
    if has_carrier && (has_events && has_limbo)
    then (if has_mailboxes then (if has_epoll then prepared else freed) else null_followed)
    else if has_carrier
    then freed
    else null

-- nthreads as p7_init_real takes it.
abbrev pub carriers_of : ℕ → ℕ
carriers_of zero = 1
carriers_of (suc n) = suc n

-- The coroutine of the main thread: P7_CORO_STATUS_FLAG_MAIN, and a context of its own.
unfoldable pub main_ctlflow : Coro
main_ctlflow =
    let co = coro_init none 0 0 0 in
    record co { status = record co.status { is_main = true }; cntx = cntx_new none 0 0 false true }

-- p7_init_real on the first carrier, where no allocation fails: the main coroutine at x runs.
unfoldable pub init_real : ℕ → (ℕ → Coro) → (ℕ → TimerEvent) → ℕ → List ℕ → Carrier
init_real nthreads coros timers x fresh =
    let n = carriers_of nthreads in
    let c = new_carrier 0 n coros timers fresh (λ (i : ℕ). new_shared n) in
    store x main_ctlflow (record c { coro_queue = x ∷ []; running = some x })

-- coro_sig_go_die.
unfoldable pub go_die : Coro → ℕ → List UserCall
go_die co x = elim co.cleanup_func [ none ↦ [] | some f ↦ cleanup f x co.cleanup_arg ∷ [] ]

-- The first loop of p7_finalize, on one of the lists.
unfoldable pub go_die_all : List ℕ → (ℕ → Coro) → List UserCall
go_die_all [] coros = []
go_die_all (x ∷ xs) coros = go_die (coros x) x ++ go_die_all xs coros

-- The loop of message_destroy over one of the lists. The macro is given the iterator, which is already
-- one message ahead: with two messages or more it is the second that is destroyed, whose links are
-- null then, so that the loop ends; none with one message, where the head of the list is taken for a
-- message.
unfoldable pub destroy_all : List Msg → Option (List UserCall)
destroy_all [] = some []
destroy_all (m ∷ []) = none
destroy_all (m ∷ n ∷ ms) = some (if is_some n.dtor then destroy n ∷ [] else [])

unfoldable pub and_then : Option (List UserCall) → Option (List UserCall) → Option (List UserCall)
and_then none later = none
and_then (some calls) none = none
and_then (some calls) (some later) = some (calls ++ later)

-- The mailboxes of the first n senders.
unfoldable pub destroy_boxes : ℕ → Shared → Option (List UserCall)
destroy_boxes zero s = some []
destroy_boxes (suc n) s =
    and_then (destroy_boxes n s)
      (and_then (destroy_all (s.mailboxes n).queue_0) (destroy_all (s.mailboxes n).queue_1))

-- The calls of the first and of the second phase of p7_finalize for one carrier.
unfoldable pub finalize_coros : Carrier → List UserCall
finalize_coros c = go_die_all c.coro_queue c.coros ++ go_die_all c.blocking_queue c.coros

unfoldable pub finalize_messages : Carrier → Option (List UserCall)
finalize_messages c = and_then (destroy_boxes (own c).nmailboxes (own c)) (destroy_all c.localbox)

-- p7_finalize: the two phases, each over all carriers; then the files are closed.
unfoldable pub finalize_all_coros : List Carrier → List UserCall
finalize_all_coros [] = []
finalize_all_coros (c ∷ cs) = finalize_coros c ++ finalize_all_coros cs

unfoldable pub finalize_all_messages : List Carrier → Option (List UserCall)
finalize_all_messages [] = some []
finalize_all_messages (c ∷ cs) = and_then (finalize_messages c) (finalize_all_messages cs)

unfoldable pub finalize : List Carrier → Option (List UserCall)
finalize cs = and_then (some (finalize_all_coros cs)) (finalize_all_messages cs)
