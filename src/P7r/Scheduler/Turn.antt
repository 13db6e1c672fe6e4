-- ===== src/P7r/Scheduler/Turn.antt =====
-- p7r/p7r_uthread.c: a turn of a carrier keeps the queues of its scheduler sound.
use mathlib.Core.Path.{subst}
use servcraft.Prelude.{
  ℕ, ap, ◌-◌, ◌≡◌, refl, true, Option, none, some, List, [], ◌∷◌, arith, count, count-append,
  ==_self, is_nil, Bool-cases, inl, inr, some_eq,
}
use servcraft.P7r.Scheduler.{
  Request, Scheduler, detach, pick_from, cherry_pick, from_request, enqueue, launch,
  swarm_available, rotate, choose, choose_first, resched_request, resched_from, resched_target,
}
use servcraft.P7r.Scheduler.Bus.{BusEvent, Bus, refresh_with, bus_refresh}
use servcraft.P7r.Scheduler.Lifespan.{carrier_request, carrier_target, carrier_turn}
use servcraft.P7r.Scheduler.Queues.{
  IsSound, TimersLive, BusLive, expire_all-Kept, respond_all-Kept, EventsLive-Kept,
  take_boxes-IsSound, bury-IsSound, requeue-Kept,
}

pub refresh_with-IsSound :
    (events : Option (List BusEvent)) (b : Bus) {s : Scheduler}
    → IsSound s
    → TimersLive s b.peeks
    → BusLive s events
    → IsSound (refresh_with events b s).0
unfolding refresh_with
refresh_with-IsSound none b sound t e = sound
refresh_with-IsSound (some es) b {s} sound t e =
    let k =
      expire_all-Kept b.peeks b.current_time {s = record s { consumed = true }}
        (record { apart = sound.apart; ran = sound.ran }) t in
    bury-IsSound
      (take_boxes-IsSound b.boxes (respond_all-Kept es k.sound (EventsLive-Kept k es e)).sound)

pick_from-IsSound : (qs : List Request) {s : Scheduler} → IsSound s → IsSound (pick_from qs s).0
unfolding pick_from
pick_from-IsSound [] sound = sound
pick_from-IsSound (q ∷ qs) sound = record { apart = sound.apart; ran = sound.ran }

pub cherry_pick-IsSound : {s : Scheduler} → IsSound s → IsSound (cherry_pick s).0
unfolding cherry_pick
cherry_pick-IsSound {s} sound = pick_from-IsSound s.request_queue sound

-- A scheduler that an operation may not have given.
abbrev pub IsSoundIf : Option Scheduler → Type 0
IsSoundIf none = Unit
IsSoundIf (some s) = IsSound s

from_request-IsSound :
    (xs : List ℕ) (q : Request) {s : Scheduler}
    → IsSound s
    → s.stacks ≡ xs
    → IsSoundIf (enqueue (from_request xs q s))
unfolding enqueue from_request
from_request-IsSound [] q sound e = tt
from_request-IsSound (x ∷ xs) q {s} sound e = record {
  apart =
      λ y. ground (arith, sound.apart y, ap (count y) e, count-append y s.running_queue (x ∷ []));
  ran = λ y r. ground (
    arith,
    sound.ran y r,
    sound.apart y,
    ap (count y) e,
    count-append y s.running_queue (x ∷ []),
  );
}

pub launch-IsSound : (q : Request) {s : Scheduler} → IsSound s → IsSoundIf (launch q s)
unfolding launch
launch-IsSound q {s} sound = from_request-IsSound s.stacks q sound refl

-- The target is null, or the running uthread, first in the running queue.
abbrev pub IsTarget : Scheduler → Option ℕ → Type 0
IsTarget s none = Unit
IsTarget s (some x) = (s.current ≡ some x) × (count x s.running_queue ≡ 1)

-- What sched_resched_target gives where no null pointer is followed.
abbrev pub Target : Option (Scheduler × Option ℕ) → Type 0
Target none = Unit
Target (some (s, t)) = IsSound s × IsTarget s t

choose-Target : (q : List ℕ) {s : Scheduler} → IsSound s → s.running_queue ≡ q → Target (choose q s)
unfolding choose
choose-Target [] sound e = tt
choose-Target (x ∷ xs) {s} sound e =
    let one : count x s.running_queue ≡ 1 =
      ground (arith, ap (count x) e, ==_self x, sound.apart x) in
    (
      record {
        apart = sound.apart;
        ran = λ y r. subst (λ z. count z s.running_queue ≡ 1) (some_eq r) one;
      },
      (refl, one),
    )

choose_first-Target : (o : Option Scheduler) → IsSoundIf o → Target (choose_first o)
unfolding choose_first
choose_first-Target none h = tt
choose_first-Target (some s) h = choose-Target s.running_queue h refl

resched_request-Target : (r : Scheduler × Option Request) → IsSound r.0 → Target (resched_request r)
unfolding resched_request
resched_request-Target (s, none) h = (h, tt)
resched_request-Target (s, some q) h = choose_first-Target (launch q s) (launch-IsSound q h)

rotate-IsSound : (o : Option ℕ) {s : Scheduler} → IsSound s → s.current ≡ o → IsSound (rotate o s)
unfolding rotate detach
rotate-IsSound none sound e = sound
rotate-IsSound (some x) {s} sound e =
    let k = requeue-Kept sound x (s.uthreads x) (ground (arith, sound.ran x e, sound.apart x)) in
    record { apart = k.sound.apart; ran = k.sound.ran }

pub resched_target-Target : (s : Scheduler) → IsSound s → Target (resched_target s)
unfolding resched_target resched_from
resched_target-Target s sound =
    let rotated = rotate-IsSound s.current sound refl in
    let r = rotate s.current s in
    elim (Bool-cases (swarm_available r)) [
      | inl available ↦ rw available (
          resched_request-Target (cherry_pick (record r { tokens = r.tokens - 1 }))
            (cherry_pick-IsSound (record { apart = rotated.apart; ran = rotated.ran })))
      | inr spent ↦ rw spent (elim (Bool-cases (is_nil r.running_queue)) [
        | inl idle ↦ rw idle (resched_request-Target (cherry_pick r) (cherry_pick-IsSound rotated))
        | inr ready ↦ rw ready (choose_first-Target (some r) rotated)
      ])
    ]

carrier_request-IsSound :
    (r : Scheduler × Option Request) → IsSound r.0 → IsSoundIf (carrier_request r)
unfolding carrier_request
carrier_request-IsSound (s, none) h = h
carrier_request-IsSound (s, some q) h = launch-IsSound q h

carrier_target-Target : (o : Option Scheduler) → IsSoundIf o → Target (carrier_target o)
unfolding carrier_target
carrier_target-Target none h = tt
carrier_target-Target (some s) h = resched_target-Target s h

-- A turn of a carrier, whose uthreads each stand in at most one queue or have a free stack, whose
-- running uthread is in the running queue, and where the timers and the events name live uthreads:
-- it follows a null pointer, or it gives a scheduler that is as sound, and as the target null or a
-- uthread that is then the running one and stands in the running queue.
pub carrier_turn-Target :
    (b : Bus) (s : Scheduler)
    → IsSound s
    → TimersLive s b.peeks
    → BusLive s b.events
    → Target (carrier_turn b s)
unfolding carrier_turn bus_refresh
carrier_turn-Target b s sound t e =
    carrier_target-Target _
      (carrier_request-IsSound _ (cherry_pick-IsSound (refresh_with-IsSound b.events b sound t e)))
