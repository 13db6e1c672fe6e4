-- ===== src/Ek3/Reactor/Lifetime.antt =====
-- ek3/ek3_reactor.c: events, sessions and reactors from their creation to their end.
use servcraft.Prelude.{ℕ, Bool, true, false, Option, none, some, List, [], ◌∷◌, ◌++◌, if◌then◌else◌}
use servcraft.Ek3.Reactor.{
  Call, Event, EventType, Reactor, Session, call, close, destroy_param, free_event, free_reactor,
  free_session, hash_destroy, not_activated, store_event, store_session, timeout, timer_detach,
}

-- ek3_event_init; for a time-out the period is the variable argument.
unfoldable pub event_init :
    EventType → Bool → Bool → Bool → Bool → ℕ → Option ℕ → Option ℕ → Option ℕ → ℕ → Event → Event
event_init kind rdhup posted et oneshot fd handler param_dtor param period e =
    let common = record e {
      kind = kind;
      rdhup = rdhup;
      posted = posted;
      et = et;
      oneshot = oneshot;
      fd = fd;
      handler = handler;
      param_dtor = param_dtor;
      handler_user_param = param;
      deprecated = true;
    } in
    elim kind [
      | timeout ↦ record common { timeout_stamp = 0; timeout_period = period }
      | _ ↦ common
    ]

-- ek3_event_create, for the address that the root allocator gives, or NULL.
unfoldable pub event_create :
    Option ℕ
    → EventType
    → Bool
    → Bool
    → Bool
    → Bool
    → ℕ
    → Option ℕ
    → Option ℕ
    → Option ℕ
    → ℕ
    → Reactor
    → Reactor × Option ℕ
event_create none kind rdhup posted et oneshot fd handler param_dtor param period r = (r, none)
event_create (some x) kind rdhup posted et oneshot fd handler param_dtor param period r = (
  store_event x
      (event_init kind rdhup posted et oneshot fd handler param_dtor param period (r.events x)) r,
  some x,
)

-- The destructor of the parameter, where both are there.
unfoldable pub param_calls : Option ℕ → Option ℕ → List Call
param_calls (some f) (some p) = destroy_param f p ∷ []
param_calls (some f) none = []
param_calls none p = []

-- ek3_event_ruin.
unfoldable pub event_ruin : ℕ → Reactor → Reactor
event_ruin x r =
    let e = r.events x in
    let detached =
      if e.deprecated
      then r
      else call (timer_detach x) (store_event x (record e { deprecated = true }) r) in
    record detached { calls = detached.calls ++ param_calls e.param_dtor e.handler_user_param }

-- ek3_event_destroy, and the body of the loops of ek3_session_ruin.
unfoldable pub event_destroy : ℕ → Reactor → Reactor
event_destroy x r = call (free_event x) (event_ruin x r)

unfoldable pub destroy_events : List ℕ → Reactor → Reactor
destroy_events [] r = r
destroy_events (x ∷ xs) r = destroy_events xs (event_destroy x r)

-- ek3_session_init_, without the digest that is the id.
unfoldable pub session_init : ℕ → Session
session_init fd = record {
  fd = fd;
  status = not_activated;
  is_posted = false;
  events_notified = [];
  events_registered = [];
  events_deployed = [];
}

-- ek3_session_create_v4 and _v6: a session, or NULL.
unfoldable pub session_create : Option ℕ → ℕ → Reactor → Reactor × Option ℕ
session_create none fd r = (r, none)
session_create (some x) fd r = (store_session x (session_init fd) r, some x)

-- ek3_session_ruin.
unfoldable pub session_ruin : ℕ → Reactor → Reactor
session_ruin x r =
    let s = r.sessions x in
    let closed = call (close s.fd) r in
    let ruined =
      destroy_events s.events_notified
        (destroy_events s.events_deployed (destroy_events s.events_registered closed)) in
    store_session x
      (record s { events_notified = []; events_registered = []; events_deployed = [] }) ruined

-- ek3_session_destroy.
unfoldable pub session_destroy : ℕ → Reactor → Reactor
session_destroy x r = call (free_session x) (session_ruin x r)

unfoldable pub destroy_sessions : List ℕ → Reactor → Reactor
destroy_sessions [] r = r
destroy_sessions (x ∷ xs) r = destroy_sessions xs (session_destroy x r)

-- ek3_session_register_event.
unfoldable pub register_event : ℕ → ℕ → Reactor → Reactor
register_event x ev r =
    let s = r.sessions x in
    store_event ev (record (r.events ev) { parent_session = x })
      (store_session x (record s { events_registered = s.events_registered ++ ev ∷ [] }) r)

-- The first event of the notified ones, taken off them.
unfoldable pub take_event : ℕ → List ℕ → Reactor → Reactor × Option ℕ
take_event x [] r = (r, none)
take_event x (ev ∷ evs) r =
    (store_session x (record (r.sessions x) { events_notified = evs }) r, some ev)

-- ek3_session_next_event_notified.
unfoldable pub next_event_notified : ℕ → Reactor → Reactor × Option ℕ
next_event_notified x r = take_event x (r.sessions x).events_notified r

-- ek3_reactor_init.
unfoldable pub reactor_init : ℕ → (ℕ → Session) → (ℕ → Event) → Reactor
reactor_init epoll_fd sessions events = record {
  epoll_fd = epoll_fd;
  queue_notified = [];
  queue_committing = [];
  queue_posted = [];
  queue_deployed = [];
  sessions = sessions;
  events = events;
  calls = [];
}

-- ek3_reactor_create, for the outcome of the allocation.
unfoldable pub reactor_create : Bool → ℕ → (ℕ → Session) → (ℕ → Event) → Option Reactor
reactor_create allocated epoll_fd sessions events =
    if allocated then some (reactor_init epoll_fd sessions events) else none

-- ek3_reactor_destroy, with ek3_reactor_ruin.
unfoldable pub reactor_destroy : Reactor → Reactor
reactor_destroy r =
    let ruined = destroy_sessions r.queue_deployed (
      destroy_sessions r.queue_posted
        (destroy_sessions r.queue_committing (destroy_sessions r.queue_notified r))) in
    call free_reactor (
      call hash_destroy (
        call (close r.epoll_fd) (record ruined {
          queue_notified = [];
          queue_committing = [];
          queue_posted = [];
          queue_deployed = [];
        })))
