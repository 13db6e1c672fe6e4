-- ===== src/Tests/Lifetimes.antt =====
-- A carrier whose main coroutine waits for a file, is woken, and waits for a coroutine that it starts.
use servcraft.Prelude.{
  ℕ, is_some, ◌≡◌, ◌+◌, refl, Bool, true, Option, none, some, [], ◌∷◌, arith, count, sym, All,
}
use servcraft.P7.Runtime.{own, Carrier, unlink, to_blocking_queue, to_coro_queue}
use servcraft.P7.Runtime.Coroutines.{
  coro_init, cntx_new, coro_activate, limbo, retire, resume_following, coro_new, coro_new_from,
  coro_new_inner,
}
use servcraft.P7.Runtime.Waking.{file, wake, handle_event, handle_events, expire_all}
use servcraft.P7.Runtime.Mail.{mailbox_dispatch, dispatch_all, dispatch_boxes, dispatch_box}
use servcraft.P7.Runtime.Requests.{drain_requests, spawn_all}
use servcraft.P7.Runtime.Schedule.{
  Outside, sched_turn, reap, reap_all, pick_next, rotated, run_first, run, switch_to,
}
use servcraft.P7.Runtime.Blocking.{iowrap_begin, blocking_point, concat, concat_with}
use servcraft.P7.Runtime.Lifetime.{init_real, new_carrier, new_shared, main_ctlflow}
use servcraft.P7.Runtime.Lifetime.Laws.{init_real-Reach}
use servcraft.P7.Runtime.Queues.Steps.{Reach, later, turns, waits, waited, concats, ends}
use servcraft.P7.Runtime.Queues.Ready.{IsReady, Follows}
use servcraft.P7.Runtime.Queues.Steps
use servcraft.P7.DoubleQueue
use servcraft.P7.Runtime.Queues.Woken.{Answers}
use mathlib.Core.Path.{subst}
use servcraft.Tests.Runtimes.{begun, blank, no_timer, or_begun}

abbrev outside : Outside
outside = record { tval_after = 5; peeks = []; ready = file 10 ∷ []; has_room = true }

-- The main coroutine waits for the file 3.
abbrev parked : Carrier
parked = (iowrap_begin 10 3 true begun).0

parked-Reach : Reach begun parked
unfolding init_real new_carrier main_ctlflow
parked-Reach = later (waits 10 3 true refl) Steps.here

-- The next turn of the scheduler finds the file ready.
abbrev woken : Carrier
woken = or_begun (sched_turn outside parked)

parked-turn : sched_turn outside parked ≡ some woken
unfolding init_real new_carrier new_shared main_ctlflow coro_init cntx_new iowrap_begin
    blocking_point to_blocking_queue to_coro_queue unlink wake handle_events handle_event expire_all
    sched_turn drain_requests spawn_all dispatch_all dispatch_boxes dispatch_box mailbox_dispatch
    reap reap_all pick_next rotated run_first run switch_to coro_activate DoubleQueue.pending
    DoubleQueue.turn DoubleQueue.flip
parked-turn = refl

parked-IsLive : count 10 parked.coro_queue + count 10 parked.blocking_queue ≡ 1
unfolding init_real new_carrier main_ctlflow iowrap_begin blocking_point to_blocking_queue unlink
parked-IsLive = refl

no_message : (own parked).condpipe ≡ []
unfolding init_real new_carrier new_shared main_ctlflow iowrap_begin blocking_point
    to_blocking_queue unlink
no_message = refl

woken-Reach : Reach begun woken
woken-Reach =
    later
      (turns outside tt (subst (All (Answers parked)) (sym no_message) tt) (parked-IsLive, tt)
        parked-turn)
      parked-Reach

-- Then it waits for a new coroutine to end.
abbrev or_woken : Option (Carrier × Bool) → Carrier
or_woken none = woken
or_woken (some r) = r.0

abbrev chained : Carrier
chained = or_woken (concat (some 5) 0 64 10 woken)

chained-concat : concat (some 5) 0 64 10 woken ≡ some (chained, true)
unfolding init_real new_carrier new_shared main_ctlflow coro_init cntx_new iowrap_begin
    blocking_point to_blocking_queue to_coro_queue unlink wake handle_events handle_event expire_all
    sched_turn drain_requests spawn_all dispatch_all dispatch_boxes dispatch_box mailbox_dispatch
    reap reap_all pick_next rotated run_first run switch_to coro_activate DoubleQueue.pending
    DoubleQueue.turn DoubleQueue.flip concat concat_with coro_new coro_new_from coro_new_inner
chained-concat = refl

woken-runs : woken.running ≡ some 10
unfolding init_real new_carrier new_shared main_ctlflow coro_init cntx_new iowrap_begin
    blocking_point to_blocking_queue to_coro_queue unlink wake handle_events handle_event expire_all
    sched_turn drain_requests spawn_all dispatch_all dispatch_boxes dispatch_box mailbox_dispatch
    reap reap_all pick_next rotated run_first run switch_to coro_activate DoubleQueue.pending
    DoubleQueue.turn DoubleQueue.flip
woken-runs = refl

chained-Reach : Reach begun chained
chained-Reach = later (concats (some 5) 0 64 10 woken-runs chained-concat) woken-Reach

-- The new coroutine runs, with no event, and ends: the main one is ready again.
abbrev quiet : Outside
quiet = record { tval_after = 6; peeks = []; ready = []; has_room = true }

abbrev started : Carrier
started = or_begun (sched_turn quiet chained)

some-or_begun : (o : Option Carrier) → is_some o ≡ true → o ≡ some (or_begun o)
some-or_begun none h = cc
some-or_begun (some c) h = refl

started-turn : sched_turn quiet chained ≡ some started
unfolding init_real new_carrier new_shared main_ctlflow coro_init cntx_new iowrap_begin
    blocking_point to_blocking_queue to_coro_queue unlink wake handle_events handle_event expire_all
    sched_turn drain_requests spawn_all dispatch_all dispatch_boxes dispatch_box mailbox_dispatch
    reap reap_all pick_next rotated run_first run switch_to coro_activate DoubleQueue.pending
    DoubleQueue.turn DoubleQueue.flip concat concat_with coro_new coro_new_from coro_new_inner
    DoubleQueue.drained
started-turn = some-or_begun (sched_turn quiet chained) refl

still_no_message : (own chained).condpipe ≡ []
unfolding init_real new_carrier new_shared main_ctlflow coro_init cntx_new iowrap_begin
    blocking_point to_blocking_queue to_coro_queue unlink wake handle_events handle_event expire_all
    sched_turn drain_requests spawn_all dispatch_all dispatch_boxes dispatch_box mailbox_dispatch
    reap reap_all pick_next rotated run_first run switch_to coro_activate DoubleQueue.pending
    DoubleQueue.turn DoubleQueue.flip concat concat_with coro_new coro_new_from coro_new_inner
    DoubleQueue.drained
still_no_message = refl

started-Reach : Reach begun started
started-Reach =
    later (turns quiet tt (subst (All (Answers chained)) (sym still_no_message) tt) tt started-turn)
      chained-Reach

started-runs : started.running ≡ some 11
unfolding init_real new_carrier new_shared main_ctlflow coro_init cntx_new iowrap_begin
    blocking_point to_blocking_queue to_coro_queue unlink wake handle_events handle_event expire_all
    sched_turn drain_requests spawn_all dispatch_all dispatch_boxes dispatch_box mailbox_dispatch
    reap reap_all pick_next rotated run_first run switch_to coro_activate DoubleQueue.pending
    DoubleQueue.turn DoubleQueue.flip concat concat_with coro_new coro_new_from coro_new_inner
    DoubleQueue.drained
started-runs = refl

started-Follows : Follows started 11 (started.coros 11).following
unfolding init_real new_carrier new_shared main_ctlflow coro_init cntx_new iowrap_begin
    blocking_point to_blocking_queue to_coro_queue unlink wake handle_events handle_event expire_all
    sched_turn drain_requests spawn_all dispatch_all dispatch_boxes dispatch_box mailbox_dispatch
    reap reap_all pick_next rotated run_first run switch_to coro_activate DoubleQueue.pending
    DoubleQueue.turn DoubleQueue.flip concat concat_with coro_new coro_new_from coro_new_inner
    DoubleQueue.drained
started-Follows = (refl, λ e. ground (arith, e))

ended-Reach : Reach begun (limbo 11 started)
ended-Reach = later (ends 11 started-runs started-Follows) started-Reach

-- The coroutine that waited is the only one in the run queue, and the one that ended is to be reaped.
ended-lists : ((limbo 11 started).coro_queue ≡ 10 ∷ []) × ((limbo 11 started).dying_queue ≡ 11 ∷ [])
unfolding init_real new_carrier new_shared main_ctlflow coro_init cntx_new iowrap_begin
    blocking_point to_blocking_queue to_coro_queue unlink wake handle_events handle_event expire_all
    sched_turn drain_requests spawn_all dispatch_all dispatch_boxes dispatch_box mailbox_dispatch
    reap reap_all pick_next rotated run_first run switch_to coro_activate DoubleQueue.pending
    DoubleQueue.turn DoubleQueue.flip concat concat_with coro_new coro_new_from coro_new_inner
    DoubleQueue.drained limbo retire resume_following
ended-lists = (refl, refl)

init_real-Reach_example : IsReady (limbo 11 started)
init_real-Reach_example =
    init_real-Reach 2 blank (λ (i : ℕ). no_timer) 10 (11 ∷ 12 ∷ []) (λ y. ground arith) ended-Reach
