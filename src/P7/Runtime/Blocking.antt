-- ===== src/P7/Runtime/Blocking.antt =====
-- p7/p7impl.c: what a running coroutine does to wait, up to the switch to the scheduler and after
-- the switch back: p7_recv, p7_iowrap_, p7_coro_concat, p7_io_notify_with_recv_.
pub mod Laws
use servcraft.Prelude.{
  ℕ, ◌+◌, ◌*◌, ◌/◌, ◌%◌, Bool, true, false, Option, none, some, List, [], ◌∷◌, ◌++◌, ◌==◌,
  if◌then◌else◌, is_nil, not,
}
use servcraft.P7.Runtime.{Carrier, Coro, Msg, store, to_blocking_queue}
use servcraft.P7.Runtime.Coroutines.{coro_new}
use servcraft.P7.Runtime.Mail.{mailbox_extract}

-- p7_blocking_point, before the switch.
unfoldable pub blocking_point : ℕ → Carrier → Carrier
blocking_point x c = record (to_blocking_queue x c) { running = none }

abbrev pub set_recv : Bool → Coro → Coro
set_recv b co = record co { status = record co.status { recv = b } }

-- p7_recv up to the switch: with the mailbox empty the coroutine blocks. And whether it does.
unfoldable pub recv_begin : ℕ → Carrier → Carrier × Bool
recv_begin x c =
    if is_nil (c.coros x).mailbox
    then (blocking_point x (store x (set_recv true (c.coros x)) c), true)
    else (c, false)

-- p7_recv after the switch, where there was one.
unfoldable pub recv_end : ℕ → Bool → Carrier → Carrier × Option Msg
recv_end x has_blocked c =
    mailbox_extract x (if has_blocked then store x (set_recv false (c.coros x)) c else c)

-- The events of an epoll_event.
pub record EpollEvents : Type 0 where
  pub oneshot : Bool
  pub readable : Bool
  pub writable : Bool
  pub edge : Bool
  pub errors : Bool

-- The events for the bits of rdwr, as p7_iowrap_ and p7_waitk_new set them.
unfoldable pub epoll_events : ℕ → EpollEvents
epoll_events rdwr = record {
  oneshot = true;
  readable = rdwr % 2 == 1;
  writable = rdwr / 2 % 2 == 1;
  edge = rdwr / 4 % 2 == 1;
  errors = rdwr / 8 % 2 == 1;
}

-- p7_iowrap_ up to the switch, for the outcome of epoll_ctl; false where it returns -1.
unfoldable pub iowrap_begin : ℕ → ℕ → Bool → Carrier → Carrier × Bool
iowrap_begin x fd is_added c =
    if is_added
    then (blocking_point x (store x (record (c.coros x) { fd_waiting = some fd }) c), true)
    else (c, false)

-- p7_iowrap_ after the switch: 1 where the file is ready, and 0 where something else woke the
-- coroutine.
unfoldable pub iowrap_end : ℕ → Carrier → Carrier × ℕ
iowrap_end x c =
    let co = c.coros x in
    let idle = record co.status { ioready = false } in
    (
      store x (record co { fd_waiting = none; status = idle }) c,
      (if co.status.ioready then 1 else 0),
    )

-- P7_IO_NOTIFY_RCVRDY, P7_IO_NOTIFY_RESCHED and P7_IOMODE_ERROR.
abbrev pub rcvrdy : ℕ
rcvrdy = 2

abbrev pub resched_bit : ℕ
resched_bit = 4

abbrev pub iomode_error : ℕ
iomode_error = 8

-- p7_io_notify_with_recv_ up to the switch: what it returns, or none where it blocks.
unfoldable pub io_notify_begin : ℕ → ℕ → Bool → Carrier → Carrier × Option ℕ
io_notify_begin x fd is_added c =
    if not (is_nil (c.coros x).mailbox)
    then (c, some rcvrdy)
    else (let r = iowrap_begin x fd is_added (store x (set_recv true (c.coros x)) c) in
        (r.0, if r.1 then none else some iomode_error))

-- p7_io_notify_with_recv_ after the switch.
unfoldable pub io_notify_end : ℕ → Carrier → Carrier × ℕ
io_notify_end x c =
    let r = iowrap_end x c in
    let co = r.0.coros x in
    (
      store x (set_recv false co) r.0,
      rcvrdy * (if is_nil co.mailbox then 0 else 1) + resched_bit * r.1,
    )

-- What is left of p7_coro_concat when p7_coro_new has returned.
unfoldable pub concat_with : ℕ → Carrier × Option ℕ → Carrier × Bool
concat_with last (c, none) = (c, false)
concat_with last (c, some x) =
    let d = to_blocking_queue last (store x (record (c.coros x) { following = some last }) c) in
    (record d { coro_queue = d.coro_queue ++ x ∷ []; running = none }, true)

-- p7_coro_concat by the running coroutine, up to the switch; false where it returns -1, and none
-- where a null pointer is followed.
unfoldable pub concat : Option ℕ → ℕ → ℕ → ℕ → Carrier → Option (Carrier × Bool)
concat entry arg stack_size last c = elim (coro_new entry arg stack_size c.carrier_id true c) [
  | none ↦ none
  | some r ↦ some (concat_with last r)
]
