-- ===== src/P7r/Delegation.antt =====
-- p7r/p7r_uthread.c: p7r_delegate, by which a uthread waits for a file, a message or a time; and the
-- clock of p7r/p7r_timing.c. What epoll_ctl does is a parameter.
pub mod Outcome
use servcraft.Prelude.{
  ℕ, ◌+◌, ◌*◌, ◌/◌, ◌%◌, ◌^◌, Bool, true, false, not, Option, none, some, List, [], ◌∷◌, ◌++◌, ◌==◌,
  if◌then◌else◌,
}
use servcraft.P7r.Scheduler.{Scheduler}
use servcraft.P7r.Scheduler.Bus.{Bus}
use servcraft.P7r.Scheduler.Lifespan.{blocking_point}

-- get_timestamp_ms_current, by the time that clock_gettime gives.
unfoldable pub timestamp_ms_current : (tv_sec tv_nsec : ℕ) → ℕ
timestamp_ms_current tv_sec tv_nsec = (tv_sec * 1000 % 2 ^ 64 + tv_nsec / (1000 * 1000)) % 2 ^ 64

-- get_timestamp_ms_by_diff, by the current time.
unfoldable pub timestamp_ms_by_diff : (current diff : ℕ) → ℕ
timestamp_ms_by_diff current diff = (current + diff) % 2 ^ 64

-- The events of an epoll_event that p7r_delegation_io_based sets.
pub record EpollEvents : Type 0 where
  pub input : Bool
  pub output : Bool
  pub oneshot : Bool

-- struct p7r_delegation.
pub record Delegation : Type 0 where
  pub p7r_event : ℕ
  pub io_fd : ℕ
  pub io_events : EpollEvents
  pub io_triggered : Bool
  pub io_enabled : Bool
  pub timestamp : ℕ
  pub timer_uthread : Option ℕ
  pub timer_triggered : Bool
  pub timer_enabled : Bool
  pub uthread : ℕ

-- What a call of epoll_ctl comes to: 0, -1 with ENOENT, or -1 with another error.
pub data Ctl : Type 0 where
  done : Ctl
  missing : Ctl
  refused : Ctl

abbrev pub is_done : Ctl → Bool
is_done done = true
is_done missing = false
is_done refused = false

-- A call of epoll_ctl.
pub data EpollCall : Type 0 where
  modify : (fd : ℕ) → EpollEvents → EpollCall
  add : (fd : ℕ) → EpollEvents → EpollCall

-- P7R_DELEGATION_READ, _WRITE and _TIMED in the events that are asked for.
abbrev pub reads : ℕ → Bool
reads events = events % 2 == 1

abbrev pub writes : ℕ → Bool
writes events = events / 2 % 2 == 1

abbrev pub is_timed : ℕ → Bool
is_timed events = events / 32 % 2 == 1

unfoldable pub events_of : ℕ → EpollEvents
events_of events = record { input = reads events; output = writes events; oneshot = true }

-- The variable ret of p7r_delegation_io_based, by the outcomes of the two calls, and the calls.
unfoldable pub registered : Ctl → Ctl → Bool
registered done added = true
registered missing added = is_done added
registered refused added = true

unfoldable pub ctl_calls : Ctl → ℕ → EpollEvents → List EpollCall
ctl_calls done fd events = modify fd events ∷ []
ctl_calls missing fd events = modify fd events ∷ add fd events ∷ []
ctl_calls refused fd events = modify fd events ∷ []

-- p7r_delegation_io_based.
unfoldable pub io_based : ℕ → Ctl → Ctl → Delegation → Delegation × List EpollCall
io_based fd modified added d =
    let events = events_of d.p7r_event in
    let watched = record d { io_fd = fd; io_events = events } in
    (
      (if registered modified added
          then record watched { io_enabled = true; io_triggered = false }
          else watched),
      ctl_calls modified fd events,
    )

-- p7r_delegation_timed, with p7r_timer_core_init: the timer is not attached to the queue.
unfoldable pub timed : (current dt : ℕ) → Option ℕ → Delegation → Delegation
timed current dt running d = record d {
  timestamp = timestamp_ms_by_diff current dt;
  timer_uthread = running;
  timer_triggered = false;
  timer_enabled = true;
}

-- The delegation of the running uthread before its events are looked at.
unfoldable pub fresh : ℕ → ℕ → Delegation
fresh events running = record {
  p7r_event = events;
  io_fd = 0;
  io_events = record { input = false; output = false; oneshot = false };
  io_triggered = false;
  io_enabled = false;
  timestamp = 0;
  timer_uthread = none;
  timer_triggered = false;
  timer_enabled = false;
  uthread = running;
}

-- p7r_delegate up to p7r_blocking_point. p7r_delegation_iuc_based does nothing.
unfoldable pub delegation_of :
    (events fd current dt : ℕ) → Ctl → Ctl → ℕ → Delegation × List EpollCall
delegation_of events fd current dt modified added running =
    let asked =
      if events % 4 == 0
      then (fresh events running, [])
      else io_based fd modified added (fresh events running) in
    ((if is_timed events then timed current dt (some running) asked.0 else asked.0), asked.1)

-- p7r_delegate by the running uthread, up to the switch.
unfoldable pub delegate :
    (events fd current dt : ℕ)
    → Ctl
    → Ctl
    → ℕ
    → List Bus
    → Scheduler
    → (Delegation × List EpollCall) × Option (Scheduler × ℕ)
delegate events fd current dt modified added running bs s =
    (delegation_of events fd current dt modified added running, blocking_point running bs s)
