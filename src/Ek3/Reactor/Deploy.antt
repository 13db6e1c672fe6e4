-- ===== src/Ek3/Reactor/Deploy.antt =====
-- ek3/ek3_reactor.c: how sessions are committed, registered and deployed, and how an event is
-- dispatched to its session.
use servcraft.Prelude.{ℕ, Bool, true, false, List, [], ◌∷◌, ◌++◌, if◌then◌else◌, erase}
use servcraft.Ek3.Reactor.{
  Call, Event, EventType, Reactor, Session, SessionStatus, activated, call, committed, epoll_add,
  error, hash_insert, hash_remove, not_activated, other, read, store_session, timeout, timer_insert,
  write,
}

abbrev pub is_committed : SessionStatus → Bool
is_committed committed = true
is_committed not_activated = false
is_committed activated = false

-- ek3_commit_session, and whether it returns 1.
unfoldable pub commit_session : ℕ → Reactor → Reactor × Bool
commit_session x r =
    let s = r.sessions x in
    if is_committed s.status then (r, false) else (
      store_session x (record s { status = committed })
          (record r { queue_committing = r.queue_committing ++ x ∷ [] }),
      true,
    )

-- ek3_register_session.
unfoldable pub register_session : ℕ → Reactor → Reactor
register_session x r = call (hash_insert x) r

-- ek3_session_detach.
unfoldable pub session_detach : ℕ → Reactor → Reactor
session_detach x r = call (hash_remove x) r

-- ek3_deploy_event: what it calls for an event.
unfoldable pub deploy_calls : ℕ → Event → List Call
deploy_calls ev e = elim e.kind [
  | timeout ↦ timer_insert ev ∷ []
  | other ↦ []
  | _ ↦ epoll_add e.fd ev ∷ []
]

-- The loop of ek3_deploy_session over the registered events.
unfoldable pub deploy_events : ℕ → List ℕ → Reactor → Reactor
deploy_events x [] r = r
deploy_events x (ev ∷ evs) r =
    let s = r.sessions x in
    deploy_events x evs
      (record (store_session x (record s { events_deployed = s.events_deployed ++ ev ∷ [] }) r) {
        calls = r.calls ++ deploy_calls ev (r.events ev);
      })

-- ek3_deploy_session. Its time is not used.
unfoldable pub deploy_session : ℕ → Reactor → Reactor
deploy_session x r =
    let s = r.sessions x in
    deploy_events x s.events_registered (
      store_session x (record s { events_registered = [] })
        (record r { queue_deployed = r.queue_deployed ++ x ∷ [] }))

-- list_del of the node of a session: it leaves the queue that it stands in.
unfoldable pub unlink_session : ℕ → Reactor → Reactor
unlink_session x r = record r {
  queue_notified = erase x r.queue_notified;
  queue_committing = erase x r.queue_committing;
  queue_posted = erase x r.queue_posted;
  queue_deployed = erase x r.queue_deployed;
}

abbrev pub is_activated : SessionStatus → Bool
is_activated activated = true
is_activated not_activated = false
is_activated committed = false

-- The events that epoll reports.
abbrev pub is_io : EventType → Bool
is_io read = true
is_io write = true
is_io error = true
is_io timeout = false
is_io other = false

-- A session that becomes active moves to the queue of the posted or of the notified.
unfoldable pub activate : ℕ → Bool → Reactor → Reactor
activate x is_posted r =
    let d = unlink_session x r in
    if is_posted
    then record d { queue_posted = d.queue_posted ++ x ∷ [] }
    else record d { queue_notified = d.queue_notified ++ x ∷ [] }

-- list_del of the node of an event, which stands in a list of its session, and list_add_tail to the
-- notified ones.
unfoldable pub notify_event : ℕ → Session → Session
notify_event ev s = record s {
  events_registered = erase ev s.events_registered;
  events_deployed = erase ev s.events_deployed;
  events_notified = erase ev s.events_notified ++ ev ∷ [];
}

-- ek3_dispatch_event.
unfoldable pub dispatch_event : ℕ → Reactor → Reactor
dispatch_event ev r =
    let e = r.events ev in
    let x = e.parent_session in
    let s = r.sessions x in
    let is_posted =
      if is_io e.kind then (if e.posted then true else s.is_posted) else s.is_posted in
    let moved = if is_activated s.status then r else activate x is_posted r in
    store_session x (notify_event ev (record s { status = activated; is_posted = is_posted })) moved
