-- ===== src/Ek3/Reactor/Poll.antt =====
-- ek3/ek3_reactor.c: ek3_poll.
use servcraft.Prelude.{
  ℕ, zero, suc, ◌+◌, ◌-◌, ◌%◌, ◌^◌, Bool, true, false, Option, none, some, List, [], ◌∷◌, ◌++◌, ltb,
  is_nil, if◌then◌else◌,
}
use servcraft.Ek3.Reactor.{Call, not_activated, Reactor, store_session}
use servcraft.Ek3.Reactor.Deploy.{unlink_session, deploy_session, dispatch_event}

-- The loop over the committed sessions.
unfoldable pub deploy_all : List ℕ → Reactor → Reactor
deploy_all [] r = r
deploy_all (x ∷ xs) r = deploy_all xs (deploy_session x (unlink_session x r))

-- The timeout of epoll_wait, an int, by the stamp of the earliest timer; none for -1.
unfoldable pub poll_timeout : Option ℕ → ℕ → Bool → Option ℕ
poll_timeout earliest baseline_time true = some 0
poll_timeout none baseline_time false = none
poll_timeout (some stamp) baseline_time false =
    let period = (stamp + 2 ^ 64 - baseline_time) % 2 ^ 32 in
    some (if ltb period (2 ^ 31) then period else 0)

-- The loop over the timers, with fuel: none where that does not end it. The earliest event of the tree
-- is what timer_peek_earliest gives after the calls that were made, those on the tree among them.
unfoldable pub timer_loop : ℕ → (List Call → Option ℕ) → ℕ → Reactor → Option Reactor
timer_loop zero earliest deadline_time r = none
timer_loop (suc fuel) earliest deadline_time r = elim (earliest r.calls) [
  | none ↦ some r
  | some ev ↦
      let rest = timer_loop fuel earliest deadline_time (dispatch_event ev r) in
      if ltb deadline_time (r.events ev).timeout_stamp then some r else rest
]

-- The loop over the events that epoll reported.
unfoldable pub dispatch_all : List ℕ → Reactor → Reactor
dispatch_all [] r = r
dispatch_all (ev ∷ evs) r = dispatch_all evs (dispatch_event ev r)

-- The body of the loop over the posted sessions.
unfoldable pub post_session : ℕ → Reactor → Reactor
post_session x r =
    let d = unlink_session x r in
    store_session x (record (d.sessions x) { status = not_activated; is_posted = false })
      (record d { queue_notified = d.queue_notified ++ x ∷ [] })

unfoldable pub post_all : List ℕ → Reactor → Reactor
post_all [] r = r
post_all (x ∷ xs) r = post_all xs (post_session x r)

-- What ek3_poll returns: a session, null where epoll_wait fails, or an address that is no session, with
-- the state just before the head of the empty queue is unlinked from itself, which leaves the reactor
-- without that queue; or nothing, where the loop over the timers takes all the fuel.
pub data Polled : Type 0 where
  session : (x : ℕ) (r : Reactor) → Polled
  failed : (r : Reactor) → Polled
  no_session : (before : Reactor) → Polled
  looping : Polled

-- ek3_poll_local_, which does not test whether there is a session.
unfoldable pub poll_local : List ℕ → Reactor → Polled
poll_local [] r = no_session r
poll_local (x ∷ xs) r = session x (unlink_session x r)

-- The end of ek3_poll, after the loop over the timers.
unfoldable pub poll_end : List ℕ → Option Reactor → Polled
poll_end ready none = looping
poll_end ready (some r) =
    let dispatched = dispatch_all ready r in
    let posted = post_all dispatched.queue_posted dispatched in
    poll_local posted.queue_notified posted

-- ek3_poll, with fuel for the loop over the timers, the event with the earliest timer, by the calls
-- made, the clock
-- after the wait, and the events that epoll_wait gives, or none where it fails.
unfoldable pub poll : ℕ → (List Call → Option ℕ) → ℕ → Option (List ℕ) → Reactor → Polled
poll fuel earliest deadline_time ready r =
    let deployed = deploy_all r.queue_committing r in
    if is_nil deployed.queue_notified
    then elim ready [
      | none ↦ failed deployed
      | some evs ↦ poll_end evs (timer_loop fuel earliest deadline_time deployed)
    ]
    else poll_local deployed.queue_notified deployed
