-- ===== src/P7/Runtime/Blocking/Laws.antt =====
-- p7/p7impl.c: what p7_io_notify_with_recv_ and p7_recv tell their caller.
use servcraft.Prelude.{
  ℕ, ◌+◌, ◌*◌, ◌≡◌, refl, Bool, true, false, none, some, arith, ==_self, if◌then◌else◌, is_nil, not,
}
use servcraft.P7.Runtime.{Carrier, to_blocking_queue, unlink}
use servcraft.P7.Runtime.Blocking.{
  blocking_point, iowrap_begin, iowrap_end, io_notify_begin, io_notify_end, rcvrdy,
}

-- The call returns at once with P7_IO_NOTIFY_RCVRDY where the mailbox holds a message, and changes
-- nothing; it returns P7_IOMODE_ERROR, which is 8, where epoll_ctl fails, and the coroutine is then
-- still marked as waiting for a message; else it blocks, marked, with the file that it waits for.
pub io_notify_begin-Outcome :
    (x fd : ℕ) (is_added : Bool) (c : Carrier)
    → let r = io_notify_begin x fd is_added c in
      let has_mail = not (is_nil (c.coros x).mailbox) in
      (has_mail ≡ true → r ≡ (c, some rcvrdy))
      × (has_mail ≡ false
          → is_added ≡ false
          → (r.1 ≡ some 8) × (r.0.running ≡ c.running) × ((r.0.coros x).status.recv ≡ true))
      × (has_mail ≡ false
          → is_added ≡ true
          → (r.1 ≡ none)
            × (r.0.running ≡ none)
            × ((r.0.coros x).status.recv ≡ true)
            × ((r.0.coros x).fd_waiting ≡ some fd))
unfolding io_notify_begin iowrap_begin blocking_point to_blocking_queue unlink
io_notify_begin-Outcome x fd true c = (
  λ h. rw h refl,
  λ h a. cc,
  λ h a. rw h (refl, refl, ground (arith, ==_self x), ground (arith, ==_self x)),
)
io_notify_begin-Outcome x fd false c =
    (λ h. rw h refl, λ h a. rw h (refl, refl, ground (arith, ==_self x)), λ h a. cc)

-- After the switch back the two bits tell whether a message is there and whether the file is ready,
-- and none of the three marks of the wait is left.
pub io_notify_end-Outcome :
    (x : ℕ) (c : Carrier)
    → let r = io_notify_end x c in
      (r.1
        ≡ 2 * (if is_nil (c.coros x).mailbox then 0 else 1)
          + 4 * (if (c.coros x).status.ioready then 1 else 0))
      × ((r.0.coros x).status.recv ≡ false)
      × ((r.0.coros x).status.ioready ≡ false)
      × ((r.0.coros x).fd_waiting ≡ none)
unfolding io_notify_end iowrap_end
io_notify_end-Outcome x c = ground (arith, ==_self x)
