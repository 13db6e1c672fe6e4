-- ===== src/Ek3/Reactor/Laws.antt =====
-- ek3/ek3_reactor.c: what is committed, deployed and waited for.
use servcraft.Prelude.{
  ℕ, zero, suc, ◌+◌, ◌-◌, ◌^◌, ◌≤◌, ◌<◌, ◌≡◌, refl, sym, ◌∙◌, ap, true, false, Option, none, some,
  List, [], ◌∷◌, ◌++◌, append-nil, append_assoc, arith, ltb, ==_self,
}
use servcraft.Ek3.Reactor.{Event, Reactor, Call, store_session}
use servcraft.Ek3.Reactor.Deploy.{
  deploy_calls, deploy_events, deploy_session, dispatch_event, activate, unlink_session,
}
use servcraft.Ek3.Reactor.Poll.{timer_loop, poll_timeout}

-- The calls for events, one after the other.
abbrev pub calls_for : (ℕ → Event) → List ℕ → List Call
calls_for events [] = []
calls_for events (ev ∷ evs) = deploy_calls ev (events ev) ++ calls_for events evs

deploy_events-lists :
    (evs : List ℕ) (x : ℕ) (r : Reactor)
    → (((deploy_events x evs r).sessions x).events_deployed ≡ (r.sessions x).events_deployed ++ evs)
      × (((deploy_events x evs r).sessions x).events_registered ≡ (r.sessions x).events_registered)
      × ((deploy_events x evs r).calls ≡ r.calls ++ calls_for r.events evs)
unfolding deploy_events
deploy_events-lists [] x r =
    (sym (append-nil (r.sessions x).events_deployed), refl, sym (append-nil r.calls))
deploy_events-lists (ev ∷ evs) x r =
    let s = record (r.sessions x) { events_deployed = (r.sessions x).events_deployed ++ ev ∷ [] } in
    let rest =
      deploy_events-lists evs x
        (record (store_session x s r) { calls = r.calls ++ deploy_calls ev (r.events ev) }) in
    (
      rest.0 ∙ rw (==_self x) (append_assoc (r.sessions x).events_deployed (ev ∷ []) evs),
      rest.1 ∙ rw (==_self x) refl,
      rest.2 ∙ append_assoc r.calls (deploy_calls ev (r.events ev)) (calls_for r.events evs),
    )

-- A committed session that is deployed: all its registered events are deployed, behind those that
-- were, in their order, and none is registered any more; each is given to epoll or to the timers by
-- its type, once and in the same order.
pub deploy_session-Deployed :
    (x : ℕ) (r : Reactor)
    → (((deploy_session x r).sessions x).events_deployed
        ≡ (r.sessions x).events_deployed ++ (r.sessions x).events_registered)
      × (((deploy_session x r).sessions x).events_registered ≡ [])
      × ((deploy_session x r).calls
          ≡ r.calls ++ calls_for r.events (r.sessions x).events_registered)
unfolding deploy_session
deploy_session-Deployed x r =
    let s = record (r.sessions x) { events_registered = [] } in
    let rest =
      deploy_events-lists (r.sessions x).events_registered x
        (store_session x s (record r { queue_deployed = r.queue_deployed ++ x ∷ [] })) in
    (rest.0 ∙ rw (==_self x) refl, rest.1 ∙ rw (==_self x) refl, rest.2)

calls-dispatch_event : (ev : ℕ) (r : Reactor) → (dispatch_event ev r).calls ≡ r.calls
unfolding dispatch_event activate unlink_session
calls-dispatch_event ev r = ground arith

events-dispatch_event : (ev : ℕ) (r : Reactor) → (dispatch_event ev r).events ≡ r.events
unfolding dispatch_event activate unlink_session
events-dispatch_event ev r = ground arith

module _ (earliest : List Call → Option ℕ) (ev deadline_time : ℕ) where
  timer_loop-due :
      (fuel : ℕ) (r : Reactor)
      → earliest r.calls ≡ some ev
      → (r.events ev).timeout_stamp ≤ deadline_time
      → timer_loop fuel earliest deadline_time r ≡ none
  unfolding timer_loop
  timer_loop-due zero r e h = refl
  timer_loop-due (suc fuel) r e h =
      let due : ltb deadline_time (r.events ev).timeout_stamp ≡ false = ground arith in
      let same = events-dispatch_event ev r in
      rw (timer_loop, e, due)
        (timer_loop-due fuel (dispatch_event ev r) (ap earliest (calls-dispatch_event ev r) ∙ e)
          (rw same h))

  -- The loop over the timers, over any tree whose earliest event depends on the calls made alone: it
  -- ends, and changes nothing, when the earliest timer is later than the clock; to dispatch an event
  -- makes no call, so that none takes the event out of the tree; and once the earliest timer is due
  -- the loop does not end, whatever the fuel.
  pub timer_loop-ends :
      (fuel : ℕ) (r : Reactor)
      → earliest r.calls ≡ some ev
      → (deadline_time < (r.events ev).timeout_stamp
          → timer_loop (suc fuel) earliest deadline_time r ≡ some r)
        × ((dispatch_event ev r).calls ≡ r.calls)
        × ((r.events ev).timeout_stamp ≤ deadline_time
            → timer_loop fuel earliest deadline_time r ≡ none)
  unfolding timer_loop
  timer_loop-ends fuel r e = (
    λ h.
        let later : ltb deadline_time (r.events ev).timeout_stamp ≡ true = ground arith in
        rw (timer_loop, e, later) refl,
    calls-dispatch_event ev r,
    timer_loop-due fuel r e,
  )

-- The wait of a poll is an int that is not negative, or for ever, just when there is no timer and
-- no posted session; it ends at the earliest timer when that is less than 2 ^ 31 milliseconds ahead,
-- and at once when it is past by at most 2 ^ 31.
pub poll_timeout-Outcome :
    (stamp baseline_time : ℕ)
    → stamp < 2 ^ 64
    → baseline_time < 2 ^ 64
    → (poll_timeout none baseline_time false ≡ none)
      × ((earliest : Option ℕ) → poll_timeout earliest baseline_time true ≡ some 0)
      × (baseline_time ≤ stamp
          → stamp < baseline_time + 2 ^ 31
          → poll_timeout (some stamp) baseline_time false ≡ some (stamp - baseline_time))
      × (stamp < baseline_time
          → baseline_time ≤ stamp + 2 ^ 31
          → poll_timeout (some stamp) baseline_time false ≡ some 0)
unfolding poll_timeout
poll_timeout-Outcome stamp baseline_time hs hb =
    (refl, λ e. refl, λ h g. ground arith, λ h g. ground arith)
