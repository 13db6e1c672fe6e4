-- ===== src/P7/Runtime/Queues/Turn.antt =====
-- p7/p7impl.c: a whole turn of sched_loop, and what coroutines do between two turns, keep the lists
-- sound.
use mathlib.Core.Path.{subst}
use servcraft.Prelude.{
  ℕ, zero, suc, ◌≡◌, refl, ap, length-append, Bool, false, Option, none, some, List, [], ◌∷◌, arith,
  count, count-append, length, ==_self, is_some, Bool-cases, Option-cases, inl, inr, some_eq, All,
}
use servcraft.P7.DoubleQueue.{turn, pending}
use servcraft.P7.Runtime.{CoroCntx, Coro, Msg, Carrier, own}
use servcraft.P7.Runtime.Coroutines.{coro_activate, cntx_new}
use servcraft.P7.Runtime.Waking.{handle_events, expire_all}
use servcraft.P7.Runtime.Mail.{
  deliver, mailbox_dispatch, dispatch_box, dispatch_boxes, dispatch_all,
}
use servcraft.P7.Runtime.Requests.{drain_requests}
use servcraft.P7.Runtime.Schedule.{
  rotated, switch_to, run, run_first, pick_next, Outside, sched_turn,
}
use servcraft.P7.Runtime.Queues.{IsSound, IsLive, store-IsSound, beside-IsSound}
use servcraft.P7.Runtime.Queues.Woken.{PipeAnswers, waiting}
use servcraft.P7.Runtime.Queues.Timed.{TimersAnswer, awake-Woken}
use servcraft.P7.Runtime.Queues.Spawned.{spawn_all-IsSound, reap-IsSound}

deliver-IsSound : {c : Carrier} → IsSound c → (m : Msg) → IsSound (deliver m c)
unfolding deliver
deliver-IsSound {c} sound m = elim (Bool-cases (c.coros m.dst).status.alive) [
  | inl alive ↦ rw alive (store-IsSound sound m.dst _ (sound.wakeable m.dst))
  | inr dead ↦ rw dead (elim (Bool-cases (is_some m.dtor)) [
    | inl given ↦ rw given (beside-IsSound sound _ _ _ _ _ _)
    | inr missing ↦ rw missing sound
  ])
]

mailbox_dispatch-IsSound :
    (ms : List Msg) {c : Carrier} → IsSound c → IsSound (mailbox_dispatch ms c)
unfolding mailbox_dispatch
mailbox_dispatch-IsSound [] sound = sound
mailbox_dispatch-IsSound (m ∷ ms) sound = mailbox_dispatch-IsSound ms (deliver-IsSound sound m)

dispatch_boxes-IsSound : (n : ℕ) {c : Carrier} → IsSound c → IsSound (dispatch_boxes n c)
unfolding dispatch_boxes dispatch_box
dispatch_boxes-IsSound zero sound = sound
dispatch_boxes-IsSound (suc n) {c} sound =
    mailbox_dispatch-IsSound _ (beside-IsSound (dispatch_boxes-IsSound n sound) _ _ _ _ _ _)

dispatch_all-IsSound : {c : Carrier} → IsSound c → IsSound (dispatch_all c)
unfolding dispatch_all
dispatch_all-IsSound {c} sound =
    mailbox_dispatch-IsSound _
      (beside-IsSound (dispatch_boxes-IsSound (own c).nmailboxes sound) _ _ _ _ _ _)

drain_requests-IsSound : {c d : Carrier} → IsSound c → drain_requests c ≡ some d → IsSound d
unfolding drain_requests
drain_requests-IsSound {c} sound e =
    spawn_all-IsSound (pending (turn (own c).rq_queues)) (beside-IsSound sound _ _ _ _ _ _) e

-- The running coroutine was just picked, so that a wake puts it to the run queue again.
abbrev pub IsPicked : Carrier → Type 0
IsPicked c = (x : ℕ) → c.running ≡ some x → (c.coros x).resched ≡ false

count-rotated : (y : ℕ) (last : Option ℕ) (xs : List ℕ) → count y (rotated last xs) ≡ count y xs
unfolding rotated
count-rotated y last [] = refl
count-rotated y none (x ∷ xs) = refl
count-rotated y (some last) (x ∷ xs) = ground (arith, count-append y xs (x ∷ []))

rotated-nil : (last : Option ℕ) (xs : List ℕ) → rotated last xs ≡ [] → xs ≡ []
unfolding rotated
rotated-nil last [] e = refl
rotated-nil none (x ∷ xs) e = e
rotated-nil (some last) (x ∷ xs) e = ground (arith, ap length e, length-append xs (x ∷ []))

resched-coro_activate :
    (co : Coro) (has_room : Bool) → (coro_activate co has_room).0.resched ≡ co.resched
unfolding coro_activate cntx_new
resched-coro_activate co has_room = ground arith

switch_to-IsSound :
    {c d : Carrier}
    → IsSound c
    → (x : ℕ) (co : Coro) (k : Option CoroCntx) → c.running ≡ some x
    → co.resched ≡ false
    → switch_to x co k c ≡ some d
    → IsSound d × IsPicked d
unfolding switch_to
switch_to-IsSound sound x co none runs picked q = cc
switch_to-IsSound {c} sound x co (some k) runs picked q =
    subst (λ d. IsSound d × IsPicked d) (some_eq q)
      (store-IsSound sound x co (λ h. picked), λ y r. ground (arith, ==_self x, picked, runs, r))

run_first-IsSound :
    (has_room : Bool) (xs : List ℕ) {c d : Carrier}
    → IsSound c
    → ((y : ℕ) → count y xs ≡ count y c.coro_queue)
    → (xs ≡ [] → c.coro_queue ≡ [])
    → run_first has_room xs c ≡ some d
    → IsSound d × IsPicked d
unfolding run_first run
run_first-IsSound has_room [] {c} sound same empty e =
    subst (λ d. IsSound d × IsPicked d) (some_eq e)
      (sound, λ y r. absurd (ground (arith, sound.ran y r, ap (count y) (empty refl))))
run_first-IsSound has_room (x ∷ xs) {c} sound same empty e =
    let first : IsSound (record c { coro_queue = x ∷ xs; running = some x }) = record {
      apart = λ y. ground (arith, same y, sound.apart y);
      counted = sound.counted;
      within = sound.within;
      ran = λ y r. ground (arith, r, same y, sound.apart y, ==_self x);
      wakeable = sound.wakeable;
    } in
    switch_to-IsSound first x (coro_activate (record (c.coros x) { resched = false }) has_room).0 _
      refl (resched-coro_activate (record (c.coros x) { resched = false }) has_room) e

pick_next-IsSound :
    (has_room : Bool) {c d : Carrier}
    → IsSound c
    → pick_next has_room c ≡ some d
    → IsSound d × IsPicked d
unfolding pick_next
pick_next-IsSound has_room {c} sound e =
    run_first-IsSound has_room (rotated c.running c.coro_queue) sound
      (λ y. count-rotated y c.running c.coro_queue) (rotated-nil c.running c.coro_queue) e

-- A turn of the scheduler that follows no null pointer: if the lists were sound, and the timers,
-- the files and the messages in the pipe that wake a coroutine name live ones, then the lists are
-- sound after it, and the coroutine that runs next was just picked.
pub sched_turn-IsSound :
    (o : Outside) {c d : Carrier}
    → IsSound c
    → TimersAnswer c o.peeks
    → PipeAnswers c
    → All (λ x. IsLive x c) (waiting o.ready)
    → sched_turn o c ≡ some d
    → IsSound d × IsPicked d
unfolding sched_turn
sched_turn-IsSound o {c} sound t p w e =
    let woken = awake-Woken o.tval_after o.peeks o.ready sound t p w in
    elim (Option-cases
      (drain_requests (handle_events o.ready (expire_all o.tval_after o.peeks c)))) [
        | inl fault ↦ cc (rw fault at e)
        | inr (b, drawn) ↦
            pick_next-IsSound o.has_room
              (reap-IsSound (dispatch_all-IsSound (drain_requests-IsSound woken.sound drawn)))
              (rw drawn at e)
      ]
