-- ===== src/Ek3/Reactor/Queues.antt =====
-- ek3/ek3_reactor.c: each session stands in one queue of its reactor, and one that is to be handed
-- out has an event to handle.
use servcraft.Prelude.{
  ℕ, ◌+◌, ◌-◌, ◌≤◌, ◌<◌, ◌≡◌, refl, Bool, true, false, List, [], ◌∷◌, ◌++◌, arith, count,
  count-append, count-erase, erase, ◌==◌, ==_iff, ==_self, is_nil, if◌then◌else◌, Bool-cases, inl,
  inr,
}
use servcraft.Ek3.Reactor.{Session, Reactor, store_session}
use servcraft.Ek3.Reactor.Deploy.{
  unlink_session, deploy_events, deploy_session, activate, commit_session, notify_event,
  dispatch_event, is_activated, is_committed,
}
use servcraft.Ek3.Reactor.Poll.{deploy_all, dispatch_all, post_session, post_all}

-- In how many queues a session stands.
abbrev pub places : ℕ → Reactor → ℕ
places x r =
    count x r.queue_notified
    + (count x r.queue_committing + (count x r.queue_posted + count x r.queue_deployed))

pub record IsSound (r : Reactor) : Type 0 where
  pub apart : (x : ℕ) → places x r ≤ 1
  pub busy :
      (x : ℕ)
      → 0 < count x r.queue_notified + count x r.queue_posted
      → is_nil (r.sessions x).events_notified ≡ false

is_nil-append_last : (xs : List ℕ) (x : ℕ) → is_nil (xs ++ x ∷ []) ≡ false
is_nil-append_last [] x = refl
is_nil-append_last (y ∷ ys) x = refl

module _ {r : Reactor} (sound : IsSound r) where
  open sound use {apart, busy}

  pub unlink_session-IsSound :
      (x : ℕ) → IsSound (unlink_session x r) × (places x (unlink_session x r) ≡ 0)
  unfolding unlink_session
  unlink_session-IsSound x = (
    record {
      apart = λ y. ground (
        arith,
        apart y,
        count-erase y x r.queue_notified,
        count-erase y x r.queue_committing,
        count-erase y x r.queue_posted,
        count-erase y x r.queue_deployed,
      );
      busy = λ y h.
          ground
            (arith, busy y, h, count-erase y x r.queue_notified, count-erase y x r.queue_posted);
    },
    ground (
      arith,
      apart x,
      ==_self x,
      count-erase x x r.queue_notified,
      count-erase x x r.queue_committing,
      count-erase x x r.queue_posted,
      count-erase x x r.queue_deployed,
    ),
  )

  -- A session that stands in no queue, with an event to handle, to the notified or the posted.
  enqueue-IsSound :
      (x : ℕ) (s : Session)
      → places x r ≡ 0
      → is_nil s.events_notified ≡ false
      → IsSound (store_session x s (record r { queue_notified = r.queue_notified ++ x ∷ [] }))
        × IsSound (store_session x s (record r { queue_posted = r.queue_posted ++ x ∷ [] }))
  enqueue-IsSound x s none_yet has_event = (
    record {
      apart = λ y.
          ground (arith, apart y, none_yet, ==_iff x y, count-append y r.queue_notified (x ∷ []));
      busy = λ y h.
          ground
            (arith, busy y, has_event, ==_iff x y, h, count-append y r.queue_notified (x ∷ []));
    },
    record {
      apart = λ y.
          ground (arith, apart y, none_yet, ==_iff x y, count-append y r.queue_posted (x ∷ []));
      busy = λ y h.
          ground (arith, busy y, has_event, ==_iff x y, h, count-append y r.queue_posted (x ∷ []));
    },
  )

  -- A write to a session that leaves it an event to handle, or that takes none from it.
  store-IsSound :
      (x : ℕ) (s : Session)
      → (is_nil (r.sessions x).events_notified ≡ false → is_nil s.events_notified ≡ false)
      → IsSound (store_session x s r)
  store-IsSound x s h = record {
    apart = apart;
    busy = λ y q. ground (arith, busy y, h, ==_iff x y, q);
  }

  notify_event-busy : (ev : ℕ) (s : Session) → is_nil (notify_event ev s).events_notified ≡ false
  unfolding notify_event
  notify_event-busy ev s = is_nil-append_last (erase ev s.events_notified) ev

module _ {r : Reactor} (sound : IsSound r) where
  -- The same for one that stands in some queue, which it leaves.
  enqueue_unlinked :
      (x : ℕ) (s : Session)
      → is_nil s.events_notified ≡ false
      → let d = unlink_session x r in
        IsSound (store_session x s (record d { queue_notified = d.queue_notified ++ x ∷ [] }))
        × IsSound (store_session x s (record d { queue_posted = d.queue_posted ++ x ∷ [] }))
  enqueue_unlinked x s has_event =
      let gone = unlink_session-IsSound sound x in enqueue-IsSound gone.0 x s gone.1 has_event

  activate-IsSound_at :
      (x : ℕ) (is_posted : Bool) (s : Session)
      → is_nil s.events_notified ≡ false
      → IsSound (store_session x s (activate x is_posted r))
  unfolding activate
  activate-IsSound_at x true s h = (enqueue_unlinked x s h).1
  activate-IsSound_at x false s h = (enqueue_unlinked x s h).0

  pub dispatch_event-IsSound : (ev : ℕ) → IsSound (dispatch_event ev r)
  unfolding dispatch_event
  dispatch_event-IsSound ev =
      let x = (r.events ev).parent_session in
      elim (Bool-cases (is_activated (r.sessions x).status)) [
        | inl active ↦ rw active (store-IsSound sound x _ (λ h. notify_event-busy sound ev _))
        | inr idle ↦ rw idle (activate-IsSound_at x _ _ (notify_event-busy sound ev _))
      ]

  post_session-IsSound : (x : ℕ) → 0 < count x r.queue_posted → IsSound (post_session x r)
  unfolding post_session unlink_session
  post_session-IsSound x h = (enqueue_unlinked x _ (sound.busy x (omega (arith, h)))).0

-- Writes of deploy_events: events move from one list of the session to another, and are called for.
deploy_events-IsSound :
    (evs : List ℕ) (x : ℕ) {r : Reactor} → IsSound r → IsSound (deploy_events x evs r)
unfolding deploy_events
deploy_events-IsSound [] x sound = sound
deploy_events-IsSound (ev ∷ evs) x sound =
    let stored = store-IsSound sound x _ (λ h. h) in
    deploy_events-IsSound evs x (record { apart = stored.apart; busy = stored.busy })

deploy_session-IsSound :
    (x : ℕ) {r : Reactor} → IsSound r → IsSound (deploy_session x (unlink_session x r))
unfolding deploy_session unlink_session
deploy_session-IsSound x {r} sound =
    let gone = unlink_session-IsSound sound x in
    deploy_events-IsSound (r.sessions x).events_registered x record {
      apart = λ y. ground (
        arith,
        gone.0.apart y,
        gone.1,
        ==_iff x y,
        count-append y (erase x r.queue_deployed) (x ∷ []),
      );
      busy = λ y h. ground (arith, gone.0.busy y, h, ==_iff x y);
    }

pub deploy_all-IsSound : (xs : List ℕ) {r : Reactor} → IsSound r → IsSound (deploy_all xs r)
unfolding deploy_all
deploy_all-IsSound [] sound = sound
deploy_all-IsSound (x ∷ xs) sound = deploy_all-IsSound xs (deploy_session-IsSound x sound)

pub dispatch_all-IsSound : (evs : List ℕ) {r : Reactor} → IsSound r → IsSound (dispatch_all evs r)
unfolding dispatch_all
dispatch_all-IsSound [] sound = sound
dispatch_all-IsSound (ev ∷ evs) sound = dispatch_all-IsSound evs (dispatch_event-IsSound sound ev)

queue_posted-post_session :
    (x y : ℕ) (r : Reactor)
    → count y (post_session x r).queue_posted
      ≡ (if x == y then count y r.queue_posted - 1 else count y r.queue_posted)
unfolding post_session unlink_session
queue_posted-post_session x y r = count-erase y x r.queue_posted

pub post_all-IsSound :
    (xs : List ℕ) {r : Reactor}
    → IsSound r
    → ((y : ℕ) → count y xs ≤ count y r.queue_posted)
    → IsSound (post_all xs r)
unfolding post_all
post_all-IsSound [] sound h = sound
post_all-IsSound (x ∷ xs) {r} sound h =
    post_all-IsSound xs (post_session-IsSound sound x (ground (arith, h x, ==_self x)))
      (λ y. ground (arith, h y, queue_posted-post_session x y r))

-- A session that stands in no queue is committed.
pub commit_session-IsSound :
    (x : ℕ) (r : Reactor) → IsSound r → places x r ≡ 0 → IsSound (commit_session x r).0
unfolding commit_session
commit_session-IsSound x r sound h = elim (Bool-cases (is_committed (r.sessions x).status)) [
  | inl again ↦ rw again sound
  | inr fresh ↦ rw fresh record {
    apart = λ y.
        ground (arith, sound.apart y, h, ==_iff x y, count-append y r.queue_committing (x ∷ []));
    busy = λ y q. ground (arith, sound.busy y, h, ==_iff x y, q);
  }
]
