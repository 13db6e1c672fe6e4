-- ===== src/P7/Runtime/Queues.antt =====
-- p7/p7impl.c: each coroutine stands in one list, the pool is counted and within its capacity, and
-- one that waits can be woken.
pub mod Woken
pub mod New
pub mod Spawned
pub mod Turn
pub mod Ready
pub mod Created
pub mod Concat
pub mod Timed
pub mod Steps
use servcraft.Prelude.{
  ℕ, zero, suc, ◌+◌, ◌-◌, ◌≤◌, ◌<◌, ◌≡◌, refl, Bool, true, false, Option, none, some, List, [], ◌∷◌,
  ◌++◌, arith, length, length-append, count, count-append, count-erase, length-erase, erase, ◌==◌,
  if◌then◌else◌, ltb, update, some_eq, ==_self, ==_iff,
}
use servcraft.P7.Runtime.{
  Msg, TimerCall, TimerEvent, Shared, UserCall, Coro, Carrier, unlink, to_coro_queue,
  to_blocking_queue, store,
}
use servcraft.P7.Runtime.Coroutines.{coro_delete, limbo, resume_following}
use servcraft.P7.Runtime.Blocking.{blocking_point}
use servcraft.P7.Runtime.Waking.{wake}

-- In how many places a coroutine stands, unused memory included.
abbrev pub places : ℕ → Carrier → ℕ
places x c =
    count x c.coro_queue
    + (count x c.blocking_queue
        + (count x c.dying_queue + (count x c.coro_pool_tl + count x c.fresh)))

pub record IsSound (c : Carrier) : Type 0 where
  pub apart : (x : ℕ) → places x c ≤ 1
  pub counted : c.coro_pool_size ≡ length c.coro_pool_tl
  pub within : c.coro_pool_size ≤ c.coro_pool_cap
  pub ran : (x : ℕ) → c.running ≡ some x → count x c.coro_queue ≡ 1
  pub wakeable : (x : ℕ) → 0 < count x c.blocking_queue → (c.coros x).resched ≡ false

-- It runs, is ready to run, or waits.
abbrev pub IsLive : ℕ → Carrier → Type 0
IsLive x c = count x c.coro_queue + count x c.blocking_queue ≡ 1

-- Messages, requests, timers and calls do not stand in the lists of coroutines.
pub beside-IsSound :
    {c : Carrier}
    → IsSound c
    → (localbox : List Msg) (timer_queue : List TimerCall) (timers : ℕ → TimerEvent)
      (carriers : ℕ → Shared) (next_carrier : ℕ) (calls : List UserCall)
    → IsSound (record c {
      localbox = localbox;
      timer_queue = timer_queue;
      timers = timers;
      carriers = carriers;
      next_carrier = next_carrier;
      calls = calls;
    })
beside-IsSound sound _ _ _ _ _ _ = record {
  apart = sound.apart;
  counted = sound.counted;
  within = sound.within;
  ran = sound.ran;
  wakeable = sound.wakeable;
}

module _ {c : Carrier} (sound : IsSound c) (x : ℕ) where
  open sound use {apart, counted, within, ran, wakeable}

  pub to_coro_queue-IsSound : IsLive x c → IsSound (to_coro_queue x c)
  unfolding to_coro_queue unlink
  to_coro_queue-IsSound live = record {
    apart = λ y. ground (
      arith,
      apart y,
      count-append y (erase x c.coro_queue) (x ∷ []),
      count-erase y x c.coro_queue,
      count-erase y x c.blocking_queue,
      count-erase y x c.dying_queue,
      count-erase y x c.coro_pool_tl,
    );
    counted = ground (arith, counted, apart x, length-erase x c.coro_pool_tl);
    within = within;
    ran = λ y e. ground (
      arith,
      ran y e,
      apart y,
      count-append y (erase x c.coro_queue) (x ∷ []),
      count-erase y x c.coro_queue,
    );
    wakeable = λ y h. ground (arith, apart y, wakeable y, count-erase y x c.blocking_queue);
  }

  -- The running coroutine blocks.
  pub blocking_point-IsSound :
      c.running ≡ some x → (c.coros x).resched ≡ false → IsSound (blocking_point x c)
  unfolding blocking_point to_blocking_queue unlink
  blocking_point-IsSound runs picked = record {
    apart = λ y. ground (
      arith,
      apart y,
      ran x runs,
      count-append y (erase x c.blocking_queue) (x ∷ []),
      count-erase y x c.coro_queue,
      count-erase y x c.blocking_queue,
      count-erase y x c.dying_queue,
      count-erase y x c.coro_pool_tl,
    );
    counted = ground (arith, counted, apart x, ran x runs, length-erase x c.coro_pool_tl);
    within = within;
    ran = λ y e. cc;
    wakeable = λ y h. ground (
      arith,
      apart y,
      wakeable y,
      picked,
      ==_iff x y,
      count-append y (erase x c.blocking_queue) (x ∷ []),
      count-erase y x c.blocking_queue,
    );
  }

  -- Writes to a coroutine that leave it unscheduled as it was, or that stands in the run queue.
  pub store-IsSound :
      (co : Coro) → (0 < count x c.blocking_queue → co.resched ≡ false) → IsSound (store x co c)
  store-IsSound co h = record {
    apart = apart;
    counted = counted;
    within = within;
    ran = ran;
    wakeable = λ y q. ground (arith, wakeable y q, h, ==_iff x y);
  }

  -- To the tail of the run queue: it is ready to run and waits no more; the others stay.
  pub to_coro_queue-IsLive :
      IsLive x c
      → (count x (to_coro_queue x c).blocking_queue ≡ 0)
        × ((y : ℕ) → IsLive y c → IsLive y (to_coro_queue x c))
  unfolding to_coro_queue unlink
  to_coro_queue-IsLive live = (
    ground (arith, apart x, count-erase x x c.blocking_queue),
    λ y h. ground (
      arith,
      apart y,
      apart x,
      ==_iff x y,
      count-append y (erase x c.coro_queue) (x ∷ []),
      count-erase y x c.coro_queue,
      count-erase y x c.blocking_queue,
    ),
  )
