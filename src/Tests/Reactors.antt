-- ===== src/Tests/Reactors.antt =====
-- A reactor with one committed session, which waits to read and to write.
use servcraft.Prelude.{
  ℕ, ◌≡◌, ◌<◌, ◌≤◌, refl, true, false, none, some, [], ◌∷◌, if◌then◌else◌, ◌==◌,
}
use servcraft.Ek3.Reactor.{read, write, Event, committed, Session, Reactor}
use servcraft.Ek3.Reactor.Poll.{timer_loop}
use servcraft.Ek3.Reactor.Deploy.{dispatch_event}
use servcraft.Ek3.Reactor.Handed.{Handed}
use servcraft.Ek3.Reactor.Laws.{timer_loop-ends}

abbrev to_read : Event
to_read = record {
  kind = read;
  rdhup = false;
  posted = false;
  et = false;
  oneshot = false;
  fd = 5;
  deprecated = true;
  handler = some 1;
  param_dtor = none;
  handler_user_param = none;
  timeout_stamp = 0;
  timeout_period = 0;
  parent_session = 100;
}

abbrev client : Session
client = record {
  fd = 5;
  status = committed;
  is_posted = false;
  events_notified = [];
  events_registered = 1 ∷ 2 ∷ [];
  events_deployed = [];
}

abbrev reactor : Reactor
reactor = record {
  epoll_fd = 3;
  queue_notified = [];
  queue_committing = 100 ∷ [];
  queue_posted = [];
  queue_deployed = [];
  sessions = λ (x : ℕ). client;
  events = λ (ev : ℕ). if ev == 2 then record to_read { kind = write } else to_read;
  calls = [];
}

timer_loop-ends_example :
    (9 < (reactor.events 1).timeout_stamp → timer_loop 4 (λ calls. some 1) 9 reactor ≡ some reactor)
    × ((dispatch_event 1 reactor).calls ≡ [])
    × ((reactor.events 1).timeout_stamp ≤ 9 → timer_loop 3 (λ calls. some 1) 9 reactor ≡ none)
timer_loop-ends_example = timer_loop-ends (λ calls. some 1) 1 9 3 reactor refl
