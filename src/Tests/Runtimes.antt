-- ===== src/Tests/Runtimes.antt =====
-- Mail, requests and turns of a carrier at its start.
use servcraft.Prelude.{
  ℕ, ◌≡◌, ◌≢◌, refl, true, false, Option, none, some, List, [], ◌∷◌, ◌++◌, arith, leb, ◌==◌,
  if◌then◌else◌,
}
use servcraft.P7.Runtime.{Coro, TimerEvent, Msg, CoroRq, Carrier}
use servcraft.P7.Runtime.Coroutines.{dying, coro_init, cntx_new, coro_activate}
use servcraft.P7.Runtime.Mail.{send_by_entity, mailbox_dispatch, mailbox_extract, taken}
use servcraft.P7.Runtime.Mail.Laws.{addressed, returned, mailbox_dispatch-Delivered, send-receive}
use servcraft.P7.Runtime.Requests.{rq_delete}
use servcraft.P7.Runtime.Requests.Laws.{IsPool, rq_delete-IsPool}
use servcraft.P7.Runtime.Schedule.{pick_next, rotated, run_first, run, switch_to}
use servcraft.P7.Runtime.Schedule.Laws.{Yields, turn, Yields-running}
use servcraft.P7.Runtime.Lifetime.{init_real, new_carrier, new_shared, main_ctlflow}
use servcraft.P7.Runtime.Schedule.Laws

abbrev pub no_timer : TimerEvent
no_timer = record {
  tval = 0;
  from = 0;
  triggered = false;
  coro = none;
  hook_arg = 0;
  hook_func = none;
  hook_dtor = none;
}

abbrev pub blank : ℕ → Coro
blank x = coro_init none 0 0 0

-- Two carriers; the main coroutine is at 10, and the allocator has 11 and 12.
abbrev pub begun : Carrier
begun = init_real 2 blank (λ (i : ℕ). no_timer) 10 (11 ∷ 12 ∷ [])

abbrev pub or_begun : Option Carrier → Carrier
or_begun none = begun
or_begun (some c) = c

-- A message for 10 while it lives, and one with a destructor for 11, which has ended.
abbrev mail : List Msg
mail =
    record { dst = 10; dtor = none; dtor_arg = 1 }
    ∷ record { dst = 11; dtor = some 7; dtor_arg = 2 }
    ∷ []

abbrev half : Carrier
half = record begun {
  coros = λ (x : ℕ). if x == 10 then begun.coros 10 else record (begun.coros x) { status = dying };
}

mailbox_dispatch-Delivered_example :
    ((x : ℕ)
      → ((mailbox_dispatch mail half).coros x).mailbox ≡ (
          if (half.coros x).status.alive
          then (half.coros x).mailbox ++ addressed x mail
          else (half.coros x).mailbox))
    × ((mailbox_dispatch mail half).calls ≡ half.calls ++ returned half.coros mail)
mailbox_dispatch-Delivered_example = mailbox_dispatch-Delivered mail half

abbrev note : Msg
note = record { dst = 0; dtor = none; dtor_arg = 4 }

is_alive : (begun.coros 10).status.alive ≡ true
unfolding init_real main_ctlflow coro_init
is_alive = refl

is_home : (begun.coros 10).carrier_id ≡ begun.carrier_id
unfolding init_real new_carrier main_ctlflow coro_init
is_home = refl

no_mail : (begun.coros 10).mailbox ≡ []
unfolding init_real main_ctlflow coro_init
no_mail = refl

no_local : addressed 10 begun.localbox ≡ []
unfolding init_real new_carrier
no_local = refl

send-receive_example :
    let sent = send_by_entity 10 note begun in
    let got = mailbox_extract 10 (mailbox_dispatch sent.0.localbox sent.0) in
    (sent.1 ≡ taken) × (got.1 ≡ some (record note { dst = 10 })) × ((got.0.coros 10).mailbox ≡ [])
send-receive_example = send-receive 10 note begun is_alive is_home no_mail no_local

-- 10 runs, and 11 and 12 are ready behind it; each has a context.
abbrev ready : Carrier
ready = record begun {
  coro_queue = 10 ∷ 11 ∷ 12 ∷ [];
  running = some 10;
  coros = λ (x : ℕ). main_ctlflow;
}

abbrev next : Carrier
next = or_begun (pick_next true ready)

abbrev after_next : Carrier
after_next = or_begun (pick_next true next)

two_yields : Yields 2 ready after_next
unfolding pick_next rotated run_first run switch_to coro_activate main_ctlflow coro_init cntx_new
two_yields = turn true refl (turn true refl Laws.here)

Yields-running_example : after_next.running ≡ some 12
Yields-running_example = Yields-running two_yields 12 10 (11 ∷ 12 ∷ []) refl refl refl

abbrev request : CoroRq
request = record { entry = some 3; arg = 0; stack_nunits = 8; from = 1 }

fresh_carriers-IsPool : IsPool (begun.carriers 1)
unfolding init_real new_carrier new_shared
fresh_carriers-IsPool = (refl, omega arith)

rq_delete-IsPool_example :
    IsPool ((rq_delete request begun).carriers 1)
    × (((rq_delete request begun).carriers 1).rq_pool_tl ≡ (
        if leb (begun.carriers 1).rq_pool_size (begun.carriers 1).rq_pool_cap
        then (begun.carriers 1).rq_pool_tl ++ request ∷ []
        else (begun.carriers 1).rq_pool_tl))
    × ((i : ℕ) → request.from ≢ i → (rq_delete request begun).carriers i ≡ begun.carriers i)
rq_delete-IsPool_example = rq_delete-IsPool request begun fresh_carriers-IsPool
