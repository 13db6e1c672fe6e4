-- ===== src/P7/Runtime.antt =====
-- p7/p7impl.h and p7/p7impl.c: the data of the coroutine runtime. A carrier is a thread that runs
-- coroutines. Coroutines, contexts, functions and timer events stand for their addresses, a ring
-- for the sequence of its entries, and a null pointer is `none`.
pub mod Coroutines
pub mod Waking
pub mod Mail
pub mod Requests
pub mod Schedule
pub mod Queues
pub mod Blocking
pub mod Timing
pub mod Lifetime
use servcraft.Prelude.{ℕ, Bool, true, false, Option, none, some, List, [], ◌∷◌, ◌++◌, erase, update}
use servcraft.P7.DoubleQueue.{DoubleQueue}

-- struct p7_coro_cntx: the context that makecontext prepared; uc_linked where uc_link is the limbo.
pub record CoroCntx : Type 0 where
  pub stack_size : ℕ
  pub entry : Option ℕ
  pub arg : ℕ
  pub uc_linked : Bool

-- The bits of the status of a coroutine; with none set it is P7_CORO_STATUS_DYING.
pub record Status : Type 0 where
  pub alive : Bool
  pub spawning : Bool
  pub recv : Bool
  pub ioready : Bool
  pub is_main : Bool

-- struct p7_msg.
pub record Msg : Type 0 where
  pub dst : ℕ
  pub dtor : Option ℕ
  pub dtor_arg : ℕ

-- struct p7_coro.
pub record Coro : Type 0 where
  pub mailbox : List Msg
  pub stack_size : ℕ
  pub arg : ℕ
  pub entry : Option ℕ
  pub carrier_id : ℕ
  pub timedout : Bool
  pub resched : Bool
  pub status : Status
  pub decay : ℕ
  pub cntx : Option CoroCntx
  pub following : Option ℕ
  pub trapper : Option ℕ
  pub mailbox_cleanup : Option ℕ
  pub mailbox_cleanup_arg : ℕ
  pub fd_waiting : Option ℕ
  pub cleanup_func : Option ℕ
  pub cleanup_arg : ℕ

-- struct p7_coro_rq.
pub record CoroRq : Type 0 where
  pub entry : Option ℕ
  pub arg : ℕ
  pub stack_nunits : ℕ
  pub from : ℕ

-- struct p7_timer_event; condref and its key are never read.
pub record TimerEvent : Type 0 where
  pub tval : ℕ
  pub from : ℕ
  pub triggered : Bool
  pub coro : Option ℕ
  pub hook_arg : ℕ
  pub hook_func : Option ℕ
  pub hook_dtor : Option ℕ

-- struct p7_intern_msg, by its type.
pub data InternMsg : Type 0 where
  wakeup : InternMsg
  sent : (target : ℕ) (sender : Option ℕ) → InternMsg

-- A call of a function that the program handed over: the function, and its argument.
pub data UserCall : Type 0 where
  destroy : (msg : Msg) → UserCall
  invoke : (func : ℕ) (arg : ℕ) → UserCall
  cleanup : (func coro arg : ℕ) → UserCall

-- A call of the tree of timers, which comes from another project.
pub data TimerCall : Type 0 where
  insert : (ev : ℕ) → TimerCall
  delete : (ev : ℕ) → TimerCall

-- The part of struct p7_carrier that other carriers read and write.
pub record Shared : Type 0 where
  pub alive : Bool
  pub rq_pool_tl : List CoroRq
  pub rq_pool_cap : ℕ
  pub rq_pool_size : ℕ
  pub rq_queues : DoubleQueue CoroRq
  pub mailboxes : ℕ → DoubleQueue Msg
  pub nmailboxes : ℕ
  pub condpipe : List InternMsg

-- struct p7_carrier as its own thread sees it through self_view, with the memory that it reaches:
-- the coroutines, the addresses that the allocator still has, and the other carriers.
pub record Carrier : Type 0 where
  pub carrier_id : ℕ
  pub coro_queue : List ℕ
  pub blocking_queue : List ℕ
  pub dying_queue : List ℕ
  pub coro_pool_tl : List ℕ
  pub coro_pool_cap : ℕ
  pub coro_pool_size : ℕ
  pub running : Option ℕ
  pub localbox : List Msg
  pub timer_queue : List TimerCall
  pub coros : ℕ → Coro
  pub timers : ℕ → TimerEvent
  pub fresh : List ℕ
  pub carriers : ℕ → Shared
  pub ncarriers : ℕ
  pub next_carrier : ℕ
  pub calls : List UserCall

-- list_del of the lctl of a coroutine: it leaves the list that it stands in.
unfoldable pub unlink : ℕ → Carrier → Carrier
unlink x c = record c {
  coro_queue = erase x c.coro_queue;
  blocking_queue = erase x c.blocking_queue;
  dying_queue = erase x c.dying_queue;
  coro_pool_tl = erase x c.coro_pool_tl;
}

-- Writes to the coroutine at an address.
abbrev pub store : ℕ → Coro → Carrier → Carrier
store x co c = record c { coros = update c.coros x co }

-- list_del, then list_add_tail to the run queue.
unfoldable pub to_coro_queue : ℕ → Carrier → Carrier
to_coro_queue x c = let d = unlink x c in record d { coro_queue = d.coro_queue ++ x ∷ [] }

-- list_del, then list_add_tail to the queue of the blocked.
unfoldable pub to_blocking_queue : ℕ → Carrier → Carrier
to_blocking_queue x c =
    let d = unlink x c in record d { blocking_queue = d.blocking_queue ++ x ∷ [] }

-- One's own shared part.
abbrev pub own : Carrier → Shared
own c = c.carriers c.carrier_id
