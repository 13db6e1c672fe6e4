-- ===== src/P7r/Scheduler/Bus.antt =====
-- p7r/p7r_uthread.c: sched_bus_refresh, with what the kernel, the tree of timers and the message
-- buffers give.
use servcraft.Prelude.{
  ℕ, ◌+◌, ◌-◌, ◌%◌, ◌^◌, Bool, true, false, ◌&&◌, Option, none, some, List, [], ◌∷◌, ◌++◌, ltb, leb,
  if◌then◌else◌,
}
use servcraft.P7r.Scheduler.{Request, Scheduler, reenable}

-- struct p7r_timer_core.
pub record TimerCore : Type 0 where
  pub timestamp : ℕ
  pub uthread : ℕ

-- An event of epoll_wait: the notification, or a delegation with its uthread.
pub data BusEvent : Type 0 where
  notification : BusEvent
  delegation : (timer_triggered : Bool) (uthread : ℕ) → BusEvent

-- What sched_bus_refresh takes from outside: the clock, the timers that are peeked at in turn, the
-- events or the failure of epoll_wait, and what each message box gave, with its flag consuming.
pub record Bus : Type 0 where
  pub current_time : ℕ
  pub peeks : List TimerCore
  pub events : Option (List BusEvent)
  pub boxes : List (Option (List Request) × Bool)

-- The timeout of epoll_wait, an int; none for -1.
unfoldable pub bus_timeout : Bool → Option ℕ → ℕ → Bool → Option ℕ
bus_timeout consumed earliest current_time_before true = some 0
bus_timeout false earliest current_time_before false = some 0
bus_timeout true none current_time_before false = none
bus_timeout true (some timestamp) current_time_before false =
    let timeout = (timestamp + 2 ^ 64 - current_time_before) % 2 ^ 32 in
    some (if ltb timeout (2 ^ 31) then timeout else 0)

-- Phase 2: the loop over the timers.
unfoldable pub expire_all : ℕ → List TimerCore → Scheduler → Scheduler
expire_all current_time [] s = s
expire_all current_time (t ∷ ts) s =
    if leb t.timestamp current_time then expire_all current_time ts (reenable t.uthread s) else s

-- Phase 3: the loop over the events.
unfoldable pub respond : BusEvent → Scheduler → Scheduler
respond notification s = s
respond (delegation true x) s = s
respond (delegation false x) s = reenable x s

unfoldable pub respond_all : List BusEvent → Scheduler → Scheduler
respond_all [] s = s
respond_all (e ∷ es) s = respond_all es (respond e s)

-- Phase 4: the messages are requests for uthreads, which u2cc_handler_uthread_request queues.
abbrev pub messages : Option (List Request) → List Request
messages none = []
messages (some qs) = qs

unfoldable pub take_boxes : List (Option (List Request) × Bool) → Scheduler → Scheduler
take_boxes [] s = s
take_boxes ((box, consuming) ∷ bs) s = take_boxes bs (record s {
  request_queue = s.request_queue ++ messages box;
  consumed = s.consumed && consuming;
})

-- Phase 6: p7r_uthread_delete gives the stacks of the dying back.
unfoldable pub bury : Scheduler → Scheduler
bury s = record s { dying_queue = []; stacks = s.stacks ++ s.dying_queue }

-- What follows epoll_wait, and whether sched_bus_refresh returns 0.
unfoldable pub refresh_with : Option (List BusEvent) → Bus → Scheduler → Scheduler × Bool
refresh_with none b s = (s, false)
refresh_with (some es) b s = (
  bury (
      take_boxes b.boxes
        (respond_all es (expire_all b.current_time b.peeks (record s { consumed = true })))),
  true,
)

-- sched_bus_refresh.
unfoldable pub bus_refresh : Bus → Scheduler → Scheduler × Bool
bus_refresh b s = refresh_with b.events b s
