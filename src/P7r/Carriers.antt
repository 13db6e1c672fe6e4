-- ===== src/P7r/Carriers.antt =====
-- p7r/p7r_uthread.c and p7r/p7r_api.c: the schedulers of all carriers, the requests that they send
-- each other, and the pool that is used from outside. A message is the request in it. The message
-- buffers are an instance argument, BoxCalls.
pub mod Boxes
pub mod Given
pub mod Order
pub mod Balance
pub mod Submit
use servcraft.Prelude.{
  ℕ, zero, suc, ◌+◌, ◌%◌, ◌^◌, Bool, true, false, Option, none, some, List, [], ◌∷◌, ◌++◌, ◌==◌,
  ltb, if◌then◌else◌, update, is_some,
}
use servcraft.Util.Arena.{Arena, get, release}
use servcraft.P7r.Futures
use servcraft.P7r.Futures.{Future}
use servcraft.P7r.Scheduler.{Scheduler, Request}
use servcraft.P7r.Scheduler.Bus.{Bus, BusEvent, TimerCore, bus_refresh}
use servcraft.P7r.Scheduler.Lifespan.{next_balance, create_home, yield_now}

-- cp_buffer_produce and cp_buffer_consume, the latter with the messages that it gives, which are then
-- taken out, and the flag consuming.
pub record BoxCalls (B : Type 0) : Type 0 where
  pub produce : Request → B → B
  pub consume : B → Option (List Request) × B × Bool

-- The schedulers, the message boxes by destination and source, the writes to the notification
-- files, and the globals n_carriers and balance_index.
pub record World (B : Type 0) : Type 0 where
  pub schedulers : ℕ → Scheduler
  pub boxes : ℕ → ℕ → B
  pub notifications : ℕ → ℕ
  pub n_carriers : ℕ
  pub balance_index : ℕ

-- What p7r_uthread_create_ returns: -1, 1 for another carrier, 0 for one's own.
pub data Created : Type 0 where
  refused : Created
  remote : Created
  home : Created

-- CP_BUFFER_RETRY_TIMES - 1.
abbrev pub retries : ℕ
retries = 4

module _ {B : Type 0} ⦃calls : BoxCalls B⦄ where
  open calls use {produce, consume}

  -- p7r_u2cc_message_post.
  unfoldable pub post : (dst src : ℕ) → Request → World B → World B
  post dst src q w = record w {
    boxes = update w.boxes dst (update (w.boxes dst) src (produce q (w.boxes dst src)));
    notifications = update w.notifications dst (w.notifications dst + 1);
  }

  -- p7r_uthread_create_foreign, for the outcome of the allocation, and whether it returns 0. With no
  -- carriers it divides by zero; a target beyond them is read out of the array.
  unfoldable pub create_foreign : Bool → ℕ → Request → World B → Option (World B × Bool)
  create_foreign has_room target q w =
      let index = target % w.n_carriers in
      let posted = post index index q w in
      if ltb target w.n_carriers
      then (if has_room then some (posted, true) else some (w, false))
      else none

  unfoldable pub with_scheduler : ℕ → World B → Option Scheduler → Option (World B × Created)
  with_scheduler self w none = none
  with_scheduler self w (some s) = some (record w { schedulers = update w.schedulers self s }, home)

  -- p7r_uthread_create_ by a uthread of the carrier self.
  unfoldable pub create : ℕ → Bool → Request → World B → Option (World B × Created)
  create self has_room q w =
      let balance = next_balance w.balance_index in
      let target = balance % w.n_carriers in
      let v = record w { balance_index = balance } in
      let posted = post target self (record q { future = none }) v in
      if w.n_carriers == 0
      then none
      else if target == self
      then with_scheduler self v (create_home q.user_entrance q.user_argument (w.schedulers self))
      else if has_room
      then some (posted, remote)
      else some (v, refused)

  unfoldable pub yielded : ℕ → World B → Created → Option Scheduler → Option (World B × Created)
  yielded self w c none = none
  yielded self w c (some s) = some (record w { schedulers = update w.schedulers self s }, c)

  -- The yield of p7r_uthread_create, where it is asked for and the new uthread is on the own carrier.
  unfoldable pub then_yield :
      ℕ → (yield : Bool) → Bus → Option (World B × Created) → Option (World B × Created)
  then_yield self yield b none = none
  then_yield self yield b (some (w, refused)) = some (w, refused)
  then_yield self yield b (some (w, remote)) = some (w, remote)
  then_yield self false b (some (w, home)) = some (w, home)
  then_yield self true b (some (w, home)) = yielded self w home (yield_now b (w.schedulers self))

  -- p7r_uthread_create by a uthread of the carrier self, with what a yield meets.
  unfoldable pub uthread_create :
      ℕ → Bool → (yield : Bool) → Bus → Request → World B → Option (World B × Created)
  uthread_create self has_room yield b q w = then_yield self yield b (create self has_room q w)

  -- balanced_target_carrier; none where it divides by zero.
  unfoldable pub balanced_target : World B → Option (World B × ℕ)
  balanced_target w =
      let balance = next_balance w.balance_index in
      if w.n_carriers == 0
      then none
      else some (record w { balance_index = balance }, balance % w.n_carriers)

  unfoldable pub executed : Bool → Request → Option (World B × ℕ) → Option (World B × Bool)
  executed has_room q none = none
  executed has_room q (some (w, target)) = create_foreign has_room target q w

  -- p7r_execute, and whether it returns 0.
  unfoldable pub execute : Bool → Request → World B → Option (World B × Bool)
  execute has_room q w = executed has_room (record q { future = none }) (balanced_target w)

  unfoldable pub submitted :
      ℕ
      → Arena
      → (ℕ → Future)
      → Option (World B × Bool)
      → Option (Option ℕ × Arena × (ℕ → Future) × World B)
  submitted x a futures none = none
  submitted x a futures (some (w, done)) =
      some (some x, a, update futures x (Futures.init (futures x)), w)

  -- p7r_submit after scraft_arena_get. The result of p7r_uthread_create_foreign is not looked at.
  unfoldable pub submit_with :
      Bool
      → Request
      → (ℕ → Future)
      → World B
      → Option (Arena × Option ℕ)
      → Option (Option ℕ × Arena × (ℕ → Future) × World B)
  submit_with has_room q futures w none = none
  submit_with has_room q futures w (some (a, none)) = some (none, a, futures, w)
  submit_with has_room q futures w (some (a, some x)) =
      submitted x a futures (executed has_room (record q { future = some x }) (balanced_target w))

  -- p7r_submit by a thread with a token: the future or null.
  unfoldable pub submit :
      (token : ℕ) (heap : Option ℕ)
      → Bool
      → Request
      → Arena
      → (ℕ → Future)
      → World B
      → Option (Option ℕ × Arena × (ℕ → Future) × World B)
  submit token heap has_room q a futures w = submit_with has_room q futures w (get token heap a)

  -- The loop over one message box in sched_bus_refresh, with so many tries left.
  unfoldable pub retry : ℕ → B → Option (List Request) × B × Bool
  retry zero b = consume b
  retry (suc n) b =
      let rest = retry n (consume b).1 in if is_some (consume b).0 then consume b else rest

  -- The loop over the boxes of the first n carriers: what they give, and what is left of them.
  unfoldable pub collect : ℕ → (ℕ → B) → List (Option (List Request) × Bool) × (ℕ → B)
  collect zero boxes = ([], boxes)
  collect (suc n) boxes =
      let (before, left) = collect n boxes in
      let (box, after, consuming) = retry retries (left n) in
      (before ++ (box, consuming) ∷ [], update left n after)

  -- sched_bus_refresh on the carrier self, by the clock, the timers and the events.
  unfoldable pub refresh :
      ℕ → (current_time : ℕ) → List TimerCore → List BusEvent → World B → World B
  refresh self current_time peeks events w =
      let taken = collect w.n_carriers (w.boxes self) in
      let b : Bus = record {
        current_time = current_time;
        peeks = peeks;
        events = some events;
        boxes = taken.0;
      } in
      record w {
        schedulers = update w.schedulers self (bus_refresh b (w.schedulers self)).0;
        boxes = update w.boxes self taken.1;
      }

-- p7r_future_release by a thread with a token.
unfoldable pub future_release : (token future : ℕ) → Arena → Option Arena
future_release token future a = release token future a
