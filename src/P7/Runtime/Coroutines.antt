-- ===== src/P7/Runtime/Coroutines.antt =====
-- p7/p7impl.c: the life of a coroutine: p7_coro_new, p7_coro_activate, limbo_loop, p7_coro_delete.
pub mod Laws
use servcraft.Prelude.{
  ℕ, ◌+◌, ◌-◌, ◌%◌, ◌^◌, Bool, true, false, not, ◌||◌, Option, none, some, List, [], ◌∷◌, ◌++◌, ltb,
  leb, if◌then◌else◌, is_some,
}
use servcraft.P7.Runtime.{
  CoroCntx, Status, Coro, Carrier, UserCall, destroy, invoke, unlink, store, to_coro_queue,
}

-- P7_CORO_STATUS_DYING.
abbrev pub dying : Status
dying = record { alive = false; spawning = false; recv = false; ioready = false; is_main = false }

-- P7_CORO_STATUS_ALIVE|P7_CORO_STATUS_FLAG_SPAWNING.
abbrev pub spawned : Status
spawned = record { alive = true; spawning = true; recv = false; ioready = false; is_main = false }

-- p7_coro_cntx_new_ for an entry; has_room is the outcome of the allocation.
unfoldable pub cntx_new : Option ℕ → ℕ → ℕ → Bool → Bool → Option CoroCntx
cntx_new entry arg stack_size linked has_room =
    if has_room
    then some
        record { stack_size = stack_size % 2 ^ 32; entry = entry; arg = arg; uc_linked = linked }
    else none

-- p7_coro_activate: the coroutine after it, and what it returns.
unfoldable pub coro_activate : Coro → Bool → Coro × Bool
coro_activate co has_room =
    let done = record co { status = record co.status { spawning = false } } in
    let cntx =
      if is_some co.cntx then co.cntx else cntx_new co.entry co.arg co.stack_size true has_room in
    if not co.status.spawning
    then (co, true)
    else if co.status.is_main
    then (done, true)
    else if is_some cntx
    then (record done { cntx = cntx }, true)
    else (record co { status = dying }, false)

-- The fields that p7_coro_new_ writes.
unfoldable pub coro_init : Option ℕ → ℕ → ℕ → ℕ → Coro
coro_init entry arg stack_size carrier_id = record {
  mailbox = [];
  stack_size = stack_size % 2 ^ 32;
  arg = arg;
  entry = entry;
  carrier_id = carrier_id;
  timedout = false;
  resched = false;
  status = spawned;
  decay = 0;
  cntx = none;
  following = none;
  trapper = none;
  mailbox_cleanup = none;
  mailbox_cleanup_arg = 0;
  fd_waiting = none;
  cleanup_func = none;
  cleanup_arg = 0;
}

-- The context of a coroutine that is used again: prepared anew where the stack is large enough,
-- and given back where it is not.
unfoldable pub cntx_reuse : Option ℕ → ℕ → ℕ → Bool → CoroCntx → Option CoroCntx
cntx_reuse entry arg stack_size linked k =
    if leb stack_size k.stack_size
    then some record k { entry = entry; arg = arg; uc_linked = linked }
    else none

-- The fields that p7_coro_new writes to a coroutine from the pool. The mailbox is not among them.
unfoldable pub coro_reuse : Option ℕ → ℕ → ℕ → ℕ → Bool → CoroCntx → Coro → Coro
coro_reuse entry arg stack_size carrier_id linked k co = record co {
  arg = arg;
  entry = entry;
  carrier_id = carrier_id;
  cntx = cntx_reuse entry arg stack_size linked k;
  stack_size = stack_size % 2 ^ 32;
  status = spawned;
  decay = 0;
  trapper = none;
  fd_waiting = none;
  cleanup_func = none;
  cleanup_arg = 0;
  timedout = false;
  resched = false;
  mailbox_cleanup = none;
  mailbox_cleanup_arg = 0;
}

-- p7_coro_new_, by the addresses that the allocator has: the coroutine, or null.
unfoldable pub coro_new_inner :
    Option ℕ → ℕ → ℕ → ℕ → List ℕ → Carrier → Option (Carrier × Option ℕ)
coro_new_inner entry arg stack_size carrier_id [] c = some (c, none)
coro_new_inner entry arg stack_size carrier_id (x ∷ xs) c =
    some (store x (coro_init entry arg stack_size carrier_id) (record c { fresh = xs }), some x)

-- The first coroutine of the pool, with the context that it has. A null context is followed.
unfoldable pub pool_take :
    Option ℕ → ℕ → ℕ → ℕ → Bool → ℕ → Option CoroCntx → Carrier → Option (Carrier × Option ℕ)
pool_take entry arg stack_size carrier_id linked x none c = none
pool_take entry arg stack_size carrier_id linked x (some k) c = some (
  store x (coro_reuse entry arg stack_size carrier_id linked k (c.coros x))
      (record (unlink x c) { coro_pool_size = c.coro_pool_size - 1 }),
  some x,
)

-- p7_coro_new by the pool: none where a null pointer is followed.
unfoldable pub coro_new_from :
    Option ℕ → ℕ → ℕ → ℕ → Bool → List ℕ → Carrier → Option (Carrier × Option ℕ)
coro_new_from entry arg stack_size carrier_id linked [] c =
    coro_new_inner entry arg stack_size carrier_id c.fresh c
coro_new_from entry arg stack_size carrier_id linked (x ∷ xs) c =
    pool_take entry arg stack_size carrier_id linked x (c.coros x).cntx c

-- p7_coro_new.
unfoldable pub coro_new : Option ℕ → ℕ → ℕ → ℕ → Bool → Carrier → Option (Carrier × Option ℕ)
coro_new entry arg stack_size carrier_id linked c =
    coro_new_from entry arg stack_size carrier_id linked c.coro_pool_tl c

-- p7_coro_delete: to the pool, or its memory to the allocator.
unfoldable pub coro_delete : ℕ → Carrier → Carrier
coro_delete x c =
    let co = record (c.coros x) { status = dying; trapper = none } in
    if ltb c.coro_pool_size c.coro_pool_cap
    then store x (record co { following = none })
        (record c {
          coro_pool_size = c.coro_pool_size + 1;
          coro_pool_tl = c.coro_pool_tl ++ x ∷ [];
        })
    else store x co (record c { fresh = c.fresh ++ x ∷ [] })

-- The call of the cleaner of the mailbox, if there is one.
abbrev pub cleaner_calls : Option ℕ → ℕ → List UserCall
cleaner_calls none arg = []
cleaner_calls (some f) arg = invoke f arg ∷ []

-- The coroutine that waited for this one, back to the run queue.
unfoldable pub resume_following : Option ℕ → Carrier → Carrier
resume_following none c = c
resume_following (some f) c = to_coro_queue f c

-- What limbo_loop does to the lists, for the coroutine that waited and the calls up to then.
unfoldable pub retire : Option ℕ → ℕ → Coro → List UserCall → Carrier → Carrier
retire following x co calls c =
    let freed = resume_following following (record (store x co (unlink x c)) { calls = calls }) in
    record freed { running = none; dying_queue = freed.dying_queue ++ x ∷ [] }

-- limbo_loop: the running coroutine has returned from its entry.
unfoldable pub limbo : ℕ → Carrier → Carrier
limbo x c =
    let co = c.coros x in
    retire co.following x (record co { status = record co.status { alive = false } })
      (c.calls ++ cleaner_calls co.mailbox_cleanup co.mailbox_cleanup_arg) c
