-- ===== src/P7r/Scheduler/Queues.antt =====
-- p7r/p7r_uthread.c: each uthread stands in one queue or its stack is free, and the running one is
-- in the running queue.
use servcraft.Prelude.{
  ℕ, ◌+◌, ◌≤◌, ◌≡◌, Bool, true, false, Option, none, some, List, [], ◌∷◌, ◌++◌, arith, count,
  count-append, count-erase, erase, ==_iff, leb, All, Bool-cases, inl, inr,
}
use servcraft.P7r.Scheduler.{Uthread, Request, Scheduler, store, detach, is_running, reenable}
use servcraft.P7r.Scheduler.Bus.{
  TimerCore, BusEvent, notification, delegation, expire_all, respond, respond_all, take_boxes, bury,
}
use servcraft.P7r.Scheduler.Lifespan.{block, die}

-- In how many places a uthread stands, free stacks included.
abbrev pub places : ℕ → Scheduler → ℕ
places x s =
    count x s.running_queue
    + (count x s.blocking_queue + (count x s.dying_queue + count x s.stacks))

pub record IsSound (s : Scheduler) : Type 0 where
  pub apart : (x : ℕ) → places x s ≤ 1
  pub ran : (x : ℕ) → s.current ≡ some x → count x s.running_queue ≡ 1

-- It is ready to run, or waits.
abbrev pub IsLive : ℕ → Scheduler → Type 0
IsLive x s = count x s.running_queue + count x s.blocking_queue ≡ 1

-- The lists are sound, and a uthread that was live still is.
pub record Kept (s t : Scheduler) : Type 0 where
  pub sound : IsSound t
  pub live : (y : ℕ) → IsLive y s → IsLive y t

pub Kept-trans : {s t u : Scheduler} → Kept s t → Kept t u → Kept s u
Kept-trans p q = record { sound = q.sound; live = λ y h. q.live y (p.live y h) }

pub Kept-self : {s : Scheduler} → IsSound s → Kept s s
Kept-self sound = record { sound = sound; live = λ y h. h }

module _ {s : Scheduler} (sound : IsSound s) (x : ℕ) where
  open sound use {apart, ran}

  -- To the tail of the running queue.
  pub requeue-Kept :
      (u : Uthread)
      → IsLive x s
      → Kept s
          (store x u (record (detach x s) { running_queue = (detach x s).running_queue ++ x ∷ [] }))
  unfolding detach
  requeue-Kept u h = record {
    sound = record {
      apart = λ y. ground (
        arith,
        apart y,
        h,
        count-append y (erase x s.running_queue) (x ∷ []),
        count-erase y x s.running_queue,
        count-erase y x s.blocking_queue,
        count-erase y x s.dying_queue,
      );
      ran = λ y r. ground (
        arith,
        ran y r,
        apart y,
        count-append y (erase x s.running_queue) (x ∷ []),
        count-erase y x s.running_queue,
      );
    };
    live = λ y l. ground (
      arith,
      l,
      h,
      apart y,
      apart x,
      ==_iff x y,
      count-append y (erase x s.running_queue) (x ∷ []),
      count-erase y x s.running_queue,
      count-erase y x s.blocking_queue,
    );
  }

  reenable-Kept : IsLive x s → Kept s (reenable x s)
  unfolding reenable
  reenable-Kept h = elim (Bool-cases (is_running (s.uthreads x).status)) [
    | inl runs ↦ rw runs (Kept-self sound)
    | inr waits ↦ rw waits (requeue-Kept _ h)
  ]

  -- The running uthread blocks, or dies.
  pub block-IsSound : s.current ≡ some x → IsSound (block x s)
  unfolding block detach
  block-IsSound r = record {
    apart = λ y. ground (
      arith,
      apart y,
      ran x r,
      count-append y (erase x s.blocking_queue) (x ∷ []),
      count-erase y x s.running_queue,
      count-erase y x s.blocking_queue,
      count-erase y x s.dying_queue,
    );
    ran = λ y q. cc;
  }

  pub die-IsSound : s.current ≡ some x → IsSound (die x s)
  unfolding die detach
  die-IsSound r = record {
    apart = λ y. ground (
      arith,
      apart y,
      ran x r,
      count-append y (erase x s.dying_queue) (x ∷ []),
      count-erase y x s.running_queue,
      count-erase y x s.blocking_queue,
      count-erase y x s.dying_queue,
    );
    ran = λ y q. cc;
  }

-- The timers and the events name live uthreads.
abbrev pub TimersLive : Scheduler → List TimerCore → Type 0
TimersLive s ts = All (λ (t : TimerCore). IsLive t.uthread s) ts

abbrev pub EventLive : Scheduler → BusEvent → Type 0
EventLive s notification = Unit
EventLive s (delegation timer_triggered x) = IsLive x s

TimersLive-Kept :
    {s t : Scheduler} → Kept s t → (ts : List TimerCore) → TimersLive s ts → TimersLive t ts
TimersLive-Kept k [] h = tt
TimersLive-Kept k (c ∷ ts) h = (k.live c.uthread h.0, TimersLive-Kept k ts h.1)

pub EventsLive-Kept :
    {s t : Scheduler}
    → Kept s t
    → (es : List BusEvent) → All (EventLive s) es
    → All (EventLive t) es
EventsLive-Kept k [] h = tt
EventsLive-Kept k (notification ∷ es) h = (tt, EventsLive-Kept k es h.1)
EventsLive-Kept k (delegation b x ∷ es) h = (k.live x h.0, EventsLive-Kept k es h.1)

pub expire_all-Kept :
    (ts : List TimerCore) (now : ℕ) {s : Scheduler}
    → IsSound s
    → TimersLive s ts
    → Kept s (expire_all now ts s)
unfolding expire_all
expire_all-Kept [] now sound h = Kept-self sound
expire_all-Kept (t ∷ ts) now sound h = elim (Bool-cases (leb t.timestamp now)) [
  | inl due ↦ rw due (
      let k = reenable-Kept sound t.uthread h.0 in
      Kept-trans k (expire_all-Kept ts now k.sound (TimersLive-Kept k ts h.1)))
  | inr later ↦ rw later (Kept-self sound)
]

respond-Kept : (e : BusEvent) {s : Scheduler} → IsSound s → EventLive s e → Kept s (respond e s)
unfolding respond
respond-Kept notification sound h = Kept-self sound
respond-Kept (delegation true x) sound h = Kept-self sound
respond-Kept (delegation false x) sound h = reenable-Kept sound x h

pub respond_all-Kept :
    (es : List BusEvent) {s : Scheduler}
    → IsSound s
    → All (EventLive s) es
    → Kept s (respond_all es s)
unfolding respond_all
respond_all-Kept [] sound h = Kept-self sound
respond_all-Kept (e ∷ es) sound h =
    let k = respond-Kept e sound h.0 in
    Kept-trans k (respond_all-Kept es k.sound (EventsLive-Kept k es h.1))

pub take_boxes-IsSound :
    (bs : List (Option (List Request) × Bool)) {s : Scheduler}
    → IsSound s
    → IsSound (take_boxes bs s)
unfolding take_boxes
take_boxes-IsSound [] sound = sound
take_boxes-IsSound ((box, consuming) ∷ bs) sound =
    take_boxes-IsSound bs (record { apart = sound.apart; ran = sound.ran })

pub bury-IsSound : {s : Scheduler} → IsSound s → IsSound (bury s)
unfolding bury
bury-IsSound {s} sound = record {
  apart = λ y. omega (arith, sound.apart y, count-append y s.stacks s.dying_queue);
  ran = sound.ran;
}

-- What a refresh of the bus may be given.
abbrev pub BusLive : Scheduler → Option (List BusEvent) → Type 0
BusLive s none = Unit
BusLive s (some es) = All (EventLive s) es
