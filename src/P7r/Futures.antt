-- ===== src/P7r/Futures.antt =====
-- p7r/p7r_future.h and p7r/p7r_future_def.h: a future, whose semaphore is the count of its posts. A
-- result is a pointer as a number, NULL is 0. The atomic accesses of its fields are single steps.
use servcraft.Prelude.{
  ℕ, ◌+◌, ◌-◌, ◌<◌, ◌≡◌, refl, Bool, true, false, Option, none, some, ◌==◌, if◌then◌else◌, arith,
  ltb,
}

-- struct p7r_future.
pub record Future : Type 0 where
  pub result : ℕ
  pub error_code : ℕ
  pub posts : ℕ

-- p7r_future_init.
abbrev pub init : Future → Future
init f = record { result = 0; error_code = 0; posts = 0 }

-- A wait that finds a post takes it, and gives the result; one that finds none waits, none.
unfoldable pub taken : Future → Option (Future × ℕ)
taken f = if f.posts == 0 then none else some (record f { posts = f.posts - 1 }, f.result)

-- p7r_future_wait, in which a signal may interrupt sem_wait.
unfoldable pub wait : (interrupted : Bool) → Future → Option (Future × ℕ)
wait true f = some (f, 0)
wait false f = taken f

unfoldable pub or_null : Future → Option (Future × ℕ) → Future × ℕ
or_null f none = (f, 0)
or_null f (some r) = r

-- p7r_future_trywait.
unfoldable pub trywait : Future → Future × ℕ
trywait f = or_null f (taken f)

unfoldable pub by_then : (timed_out : Bool) → Future → Option (Future × ℕ) → Option (Future × ℕ)
by_then timed_out f (some r) = some r
by_then true f none = some (f, 0)
by_then false f none = none

-- p7r_future_timedwait. A post is taken even when the time is over.
unfoldable pub timedwait : (timed_out : Bool) → Future → Option (Future × ℕ)
timedwait timed_out f = by_then timed_out f (taken f)

-- p7r_future_load_result and p7r_future_store_result.
abbrev pub load_result : Future → ℕ
load_result f = f.result

unfoldable pub store_result : ℕ → Future → Future
store_result result f = record f { result = result }

-- p7r_future_post, with SEM_VALUE_MAX, and whether it returns 0.
unfoldable pub post : (sem_value_max : ℕ) → Future → Future × Bool
post sem_value_max f =
    if ltb f.posts sem_value_max then (record f { posts = f.posts + 1 }, true) else (f, false)

-- p7r_future_get_error and p7r_future_set_error.
abbrev pub get_error : Future → ℕ
get_error f = f.error_code

unfoldable pub set_error : ℕ → Future → Future
set_error error_code f = record f { error_code = error_code }

taken_more : (f : Future) → taken (record f { posts = f.posts + 1 }) ≡ some (f, f.result)
unfolding taken
taken_more f =
    let some_posts : (f.posts + 1 == 0) ≡ false = ground arith in
    let left : f.posts + 1 - 1 ≡ f.posts = omega arith in rw (some_posts, left) refl

post_lem :
    (sem_value_max : ℕ) (f : Future)
    → f.posts < sem_value_max
    → post sem_value_max f ≡ (record f { posts = f.posts + 1 }, true)
unfolding post
post_lem sem_value_max f room =
    let low : ltb f.posts sem_value_max ≡ true = ground (arith, room) in rw low refl

-- A result that is stored and posted is what the next wait gives, of any kind, and the wait leaves
-- the posts of before.
pub post-wait :
    (sem_value_max result : ℕ) (f : Future)
    → f.posts < sem_value_max
    → let g = (post sem_value_max (store_result result f)).0 in
      (wait false g ≡ some (store_result result f, result))
      × (trywait g ≡ (store_result result f, result))
      × (timedwait true g ≡ some (store_result result f, result))
unfolding store_result wait trywait timedwait or_null by_then
post-wait sem_value_max result f room =
    let next = store_result result f in
    rw (post_lem sem_value_max next room, taken_more next) (refl, refl, refl)
