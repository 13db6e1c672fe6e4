-- ===== src/P7/Runtime/Waking.antt =====
-- p7/p7impl.c: what brings a blocked coroutine back to the run queue: a message, a timer, a file.
use servcraft.Prelude.{
  ℕ, true, false, Option, none, some, List, [], ◌∷◌, ◌++◌, ltb, if◌then◌else◌, update,
}
use servcraft.P7.Runtime.{
  Carrier, InternMsg, wakeup, sent, UserCall, invoke, delete, store, to_coro_queue, Shared, own,
}

-- The block that the three of them share: to the tail of the run queue, unless it is there on the
-- same ground already.
unfoldable pub wake : ℕ → Carrier → Carrier
wake x c =
    if (c.coros x).resched
    then c
    else store x (record (c.coros x) { resched = true }) (to_coro_queue x c)

-- p7_intern_handle_sent.
unfoldable pub handle_sent : ℕ → Carrier → Carrier
handle_sent x c =
    if (c.coros x).status.recv
    then (let d = wake x c in
        let co = d.coros x in
        store x (record co { timedout = false; status = record co.status { recv = false } }) d)
    else c

-- p7_intern_handlers: by the type of the message.
unfoldable pub handle_intern : InternMsg → Carrier → Carrier
handle_intern wakeup c = c
handle_intern (sent target sender) c = handle_sent target c

-- The messages that were read, in order.
unfoldable pub handle_all : List InternMsg → Carrier → Carrier
handle_all [] c = c
handle_all (m ∷ ms) c = handle_all ms (handle_intern m c)

-- Writes to the shared part of a carrier.
abbrev pub share : ℕ → Shared → Carrier → Carrier
share i s c = record c { carriers = update c.carriers i s }

-- intern_handle_message: the pipe is read until it is empty.
unfoldable pub handle_pipe : Carrier → Carrier
handle_pipe c =
    let s = own c in handle_all s.condpipe (share c.carrier_id (record s { condpipe = [] }) c)

-- An event of epoll_wait: a file that a coroutine waits for, or the pipe.
pub data ReadyEvent : Type 0 where
  file : (coro : ℕ) → ReadyEvent
  pipe : ReadyEvent

unfoldable pub handle_event : ReadyEvent → Carrier → Carrier
handle_event pipe c = handle_pipe c
handle_event (file x) c =
    let co = c.coros x in
    wake x (store x (record co { status = record co.status { ioready = true } }) c)

-- The loop over what epoll_wait returned.
unfoldable pub handle_events : List ReadyEvent → Carrier → Carrier
handle_events [] c = c
handle_events (e ∷ es) c = handle_events es (handle_event e c)

abbrev pub hook_calls : Option ℕ → ℕ → List UserCall
hook_calls none arg = []
hook_calls (some f) arg = invoke f arg ∷ []

-- The coroutine of an expired timer.
unfoldable pub time_out : Option ℕ → Carrier → Carrier
time_out none c = c
time_out (some x) c = wake x (store x (record (c.coros x) { timedout = true }) c)

-- One expired timer event leaves the tree, runs its hook and wakes its coroutine.
unfoldable pub expire : ℕ → Carrier → Carrier
expire ev c =
    let t = c.timers ev in
    let d = time_out t.coro (record c {
      timer_queue = c.timer_queue ++ delete ev ∷ [];
      calls = c.calls ++ hook_calls t.hook_func t.hook_arg;
    }) in
    record d { timers = update d.timers ev (record (d.timers ev) { triggered = true }) }

-- The loop over the timers: peeks are the events that timer_peek_earliest gives in turn, until the
-- tree is empty.
unfoldable pub expire_all : ℕ → List ℕ → Carrier → Carrier
expire_all tval_after [] c = c
expire_all tval_after (ev ∷ evs) c =
    if ltb tval_after (c.timers ev).tval then c else expire_all tval_after evs (expire ev c)
