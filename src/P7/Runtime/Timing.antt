-- ===== src/P7/Runtime/Timing.antt =====
-- p7/p7impl.c: timer events, and the fields of the running coroutine that a program reads and sets.
use servcraft.Prelude.{
  ℕ, ◌+◌, ◌^◌, ◌%◌, Bool, false, Option, none, some, [], ◌∷◌, ◌++◌, ◌==◌, ltb, if◌then◌else◌,
  update,
}
use servcraft.P7.Runtime.{Carrier, TimerEvent, insert, delete, invoke, store}

-- The sign of what p7_timer_compare returns.
pub data Order : Type 0 where
  less : Order
  same : Order
  greater : Order

unfoldable pub timer_compare : ℕ → ℕ → Order
timer_compare lhs rhs = if lhs == rhs then same else if ltb lhs rhs then less else greater

-- get_timeval_by_diff, by the clock in milliseconds: 64-bit numbers.
unfoldable pub timeval_by_diff : ℕ → ℕ → ℕ
timeval_by_diff clock dt = (clock + dt) % 2 ^ 64

-- Where a timer event is written, put to the tree, and given its hook.
unfoldable pub timer_add : ℕ → TimerEvent → Carrier → Carrier
timer_add ev t c = record c {
  timers = update c.timers ev t;
  timer_queue = c.timer_queue ++ insert ev ∷ [];
}

-- p7_timer_event_new_ and p7_timer_event_hook.
unfoldable pub timer_event : ℕ → ℕ → ℕ → Option ℕ → Option ℕ → ℕ → Option ℕ → TimerEvent
timer_event clock dt from coro func arg dtor = record {
  tval = timeval_by_diff clock dt;
  from = from;
  triggered = false;
  coro = coro;
  hook_arg = arg;
  hook_func = func;
  hook_dtor = dtor;
}

-- p7_timed_event, at the address that the allocator gave; none where a null pointer is followed.
unfoldable pub timed_event : Option ℕ → ℕ → ℕ → Option ℕ → ℕ → Option ℕ → Carrier → Option Carrier
timed_event none clock dt func arg dtor c = none
timed_event (some ev) clock dt func arg dtor c =
    some (timer_add ev (timer_event clock dt c.carrier_id none func arg dtor) c)

-- p7_timed_event_assoc: for the running coroutine.
unfoldable pub timed_event_assoc :
    Option ℕ → ℕ → ℕ → Option ℕ → ℕ → Option ℕ → Carrier → Option Carrier
timed_event_assoc none clock dt func arg dtor c = none
timed_event_assoc (some ev) clock dt func arg dtor c =
    some (timer_add ev (timer_event clock dt c.carrier_id c.running func arg dtor) c)

-- p7_timed_event_immediate: at an address that the program has.
unfoldable pub timed_event_immediate : ℕ → ℕ → ℕ → Option ℕ → ℕ → Option ℕ → Carrier → Carrier
timed_event_immediate ev clock dt func arg dtor c =
    timer_add ev (timer_event clock dt c.carrier_id c.running func arg dtor) c

-- p7_timer_clean__.
unfoldable pub timer_remove : ℕ → Carrier → Carrier
timer_remove ev c = record c { timer_queue = c.timer_queue ++ delete ev ∷ [] }

-- p7_timer_clean: the hook is given to its destructor, which gets the argument.
unfoldable pub timer_clean : ℕ → Carrier → Carrier
timer_clean ev c = elim (c.timers ev).hook_dtor [
  | none ↦ c
  | some f ↦ record c { calls = c.calls ++ invoke f (c.timers ev).hook_arg ∷ [] }
]

-- p7_timer_clean_.
unfoldable pub timer_remove_clean : ℕ → Carrier → Carrier
timer_remove_clean ev c = timer_clean ev (timer_remove ev c)

-- p7_timedout_ and p7_timeout_reset, for the running coroutine.
abbrev pub timedout : ℕ → Carrier → Bool
timedout x c = (c.coros x).timedout

unfoldable pub timeout_reset : ℕ → Carrier → Carrier
timeout_reset x c = store x (record (c.coros x) { timedout = false }) c

-- p7_coro_set_cleanup, p7_coro_set_mailbox_cleaner and p7_coro_set_mailbox_cleaner_arg.
unfoldable pub set_cleanup : Option ℕ → ℕ → ℕ → Carrier → Carrier
set_cleanup func arg x c = store x (record (c.coros x) { cleanup_func = func; cleanup_arg = arg }) c

unfoldable pub set_mailbox_cleaner : Option ℕ → ℕ → Carrier → Carrier
set_mailbox_cleaner func x c = store x (record (c.coros x) { mailbox_cleanup = func }) c

unfoldable pub set_mailbox_cleaner_arg : ℕ → ℕ → Carrier → Carrier
set_mailbox_cleaner_arg arg x c = store x (record (c.coros x) { mailbox_cleanup_arg = arg }) c

-- p7_coro_get_waiting_fd; none for -1.
abbrev pub get_waiting_fd : ℕ → Carrier → Option ℕ
get_waiting_fd x c = (c.coros x).fd_waiting
