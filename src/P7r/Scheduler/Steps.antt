-- ===== src/P7r/Scheduler/Steps.antt =====
-- p7r/p7r_uthread.c: a scheduler from p7r_init on: turns of its carrier, and what the running uthread
-- does in between.
use mathlib.Core.Path.{subst}
use servcraft.Prelude.{
  ℕ, ◌≤◌, ◌≡◌, refl, ◌∙◌, Bool, Option, none, some, List, [], ◌∷◌, arith, some_eq, count, inl, inr,
  ltb, Bool-cases,
}
use servcraft.P7r.Scheduler.{
  Uthread, Scheduler, Request, store, cherry_pick, swarm_refill, resched_target, pick_from, limbo,
}
use servcraft.P7r.Scheduler.Bus.{Bus, bus_refresh}
use servcraft.P7r.Scheduler.Lifespan.{
  block, begin_round, reincarnate, finish, create_home, carrier_turn, switch, hop, yield_now, await,
  after_round, blocking_point, scheduler_init, with_policy, start_main,
}
use servcraft.P7r.Scheduler.Queues.{IsSound, TimersLive, BusLive, block-IsSound, die-IsSound}
use servcraft.P7r.Scheduler.Turn.{
  refresh_with-IsSound, resched_target-Target, launch-IsSound, IsSoundIf, Target,
  carrier_turn-Target, cherry_pick-IsSound,
}

-- What a refresh of the bus meets names live uthreads.
abbrev pub MeetsLive : Bus → Scheduler → Type 0
MeetsLive b s = TimersLive s b.peeks × BusLive s b.events

-- So do the refreshes of the loop of p7r_blocking_point, each in the state that it is made in.
abbrev pub AwaitsLive : List Bus → Scheduler → Type 0
AwaitsLive [] s = Unit
AwaitsLive (b ∷ bs) s =
    MeetsLive b s
    × ((t : Scheduler) → resched_target (bus_refresh b s).0 ≡ some (t, none) → AwaitsLive bs t)

refresh-Target :
    (b : Bus) (s : Scheduler)
    → IsSound s
    → MeetsLive b s
    → Target (resched_target (bus_refresh b s).0)
unfolding bus_refresh
refresh-Target b s sound (t, e) =
    resched_target-Target _ (refresh_with-IsSound b.events b sound t e)

switch-IsSound : (o : Option (Scheduler × Option ℕ)) → Target o → IsSoundIf (switch o)
unfolding switch
switch-IsSound none h = tt
switch-IsSound (some (s, none)) h = tt
switch-IsSound (some (s, some x)) h = h.0

hop-IsSound : (b : Bus) (s : Scheduler) → IsSound s → MeetsLive b s → IsSoundIf (hop b s)
unfolding hop
hop-IsSound b s sound h = switch-IsSound _ (refresh-Target b s sound h)

IsSoundIf-some : {s : Scheduler} (o : Option Scheduler) → IsSoundIf o → o ≡ some s → IsSound s
IsSoundIf-some none h e = cc
IsSoundIf-some (some t) h e = subst IsSound (some_eq e) h

refill-IsSound : {s : Scheduler} → IsSound s → IsSound (swarm_refill s)
unfolding swarm_refill
refill-IsSound {s} sound = elim (Bool-cases (ltb s.tokens s.max_tokens)) [
  | inl room ↦ rw room (record { apart = sound.apart; ran = sound.ran })
  | inr full ↦ rw full sound
]

after_round-IsSound :
    (again : Scheduler → Option (Scheduler × ℕ)) (o : Option (Scheduler × Option ℕ))
    {r : Scheduler × ℕ}
    → Target o
    → ((t : Scheduler) → o ≡ some (t, none) → IsSound t → again t ≡ some r → IsSound r.0)
    → after_round again o ≡ some r
    → IsSound r.0
unfolding after_round
after_round-IsSound again none h k e = cc
after_round-IsSound again (some (s, none)) h k e = k s refl h.0 e
after_round-IsSound again (some (s, some x)) h k e =
    subst (λ (r : Scheduler × ℕ). IsSound r.0) (some_eq e) h.0

await-IsSound :
    (bs : List Bus) (s : Scheduler) {r : Scheduler × ℕ}
    → IsSound s
    → AwaitsLive bs s
    → await bs s ≡ some r
    → IsSound r.0
unfolding await
await-IsSound [] s sound h e = cc
await-IsSound (b ∷ bs) s sound h e =
    after_round-IsSound (await bs) (resched_target (bus_refresh b s).0)
      (refresh-Target b s sound h.0) (λ t q ok run. await-IsSound bs t ok (h.1 t q) run) e

-- Writes to uthreads alone, and to requests.
stored-IsSound : {s : Scheduler} → IsSound s → (x : ℕ) (u : Uthread) → IsSound (store x u s)
stored-IsSound sound x u = record { apart = sound.apart; ran = sound.ran }

current-pick_from : (qs : List Request) (s : Scheduler) → (pick_from qs s).0.current ≡ s.current
unfolding pick_from
current-pick_from [] s = refl
current-pick_from (q ∷ qs) s = refl

reincarnate-IsSound :
    (x : ℕ) (r : Scheduler × Option Request)
    → IsSound r.0
    → r.0.current ≡ some x
    → IsSound (reincarnate x r)
unfolding reincarnate
reincarnate-IsSound x (s, none) sound runs = die-IsSound sound x runs
reincarnate-IsSound x (s, some q) sound runs = stored-IsSound sound x _

finish-IsSound : (x : ℕ) (s : Scheduler) → IsSound s → s.current ≡ some x → IsSound (finish x s)
unfolding finish cherry_pick
finish-IsSound x s sound runs =
    let mourned = record (s.uthreads x) { status = limbo } in
    reincarnate-IsSound x (cherry_pick (store x mourned s))
      (cherry_pick-IsSound (stored-IsSound sound x mourned))
      (current-pick_from s.request_queue (store x mourned s) ∙ runs)

-- A turn of the carrier, or what the running uthread does: it begins a round, yields, waits until another one is
-- chosen, returns from its entrance, goes on with a request that it took over, or makes a uthread.
pub data Step (s : Scheduler) : Scheduler → Type 0 where
  turns :
      (b : Bus) {t : Scheduler} {target : Option ℕ}
      → MeetsLive b s
      → carrier_turn b s ≡ some (t, target)
      → Step s t
  yields :
      (b : Bus) {t : Scheduler} → MeetsLive b (swarm_refill s) → yield_now b s ≡ some t → Step s t
  blocks :
      (x : ℕ) (bs : List Bus) {t : Scheduler} {target : ℕ}
      → s.current ≡ some x
      → AwaitsLive bs (block x s)
      → blocking_point x bs s ≡ some (t, target)
      → Step s t
  begins : (x : ℕ) → s.current ≡ some x → Step s (begin_round x s)
  finishes : (x : ℕ) → s.current ≡ some x → Step s (finish x s)
  hops : (b : Bus) {t : Scheduler} → MeetsLive b s → hop b s ≡ some t → Step s t
  creates :
      (entrance argument : ℕ) {t : Scheduler} → create_home entrance argument s ≡ some t → Step s t

-- The states that a scheduler gets to.
pub data Reach (start : Scheduler) : Scheduler → Type 0 where
  here : Reach start start
  later : {s t : Scheduler} → Step s t → Reach start s → Reach start t

Target-some :
    {s : Scheduler} {x : Option ℕ} (o : Option (Scheduler × Option ℕ))
    → Target o
    → o ≡ some (s, x)
    → IsSound s
Target-some none h e = cc
Target-some (some r) h e = subst (λ (r : Scheduler × Option ℕ). IsSound r.0) (some_eq e) h.0

Step-IsSound : {s t : Scheduler} → Step s t → IsSound s → IsSound t
unfolding yield_now blocking_point create_home begin_round
Step-IsSound {s} (turns b m e) sound =
    Target-some (carrier_turn b s) (carrier_turn-Target b s sound m.0 m.1) e
Step-IsSound {s} (yields b m e) sound =
    IsSoundIf-some _ (hop-IsSound b (swarm_refill s) (refill-IsSound sound) m) e
Step-IsSound {s} (blocks x bs runs m e) sound =
    await-IsSound bs (block x s) (block-IsSound sound x runs) m e
Step-IsSound {s} (begins x runs) sound = stored-IsSound sound x _
Step-IsSound {s} (finishes x runs) sound = finish-IsSound x s sound runs
Step-IsSound {s} (hops b m e) sound = IsSoundIf-some _ (hop-IsSound b s sound m) e
Step-IsSound {s} (creates entrance argument e) sound = IsSoundIf-some _ (launch-IsSound _ sound) e

Reach-from : {start s : Scheduler} → IsSound start → Reach start s → IsSound s
Reach-from h here = h
Reach-from h (later step r) = Step-IsSound step (Reach-from h r)

module _ (index : ℕ) (stacks : List ℕ) (tokens : ℕ) (uthreads : ℕ → Uthread) where
  module _ (enabled : Bool) (max_tokens main : ℕ) where
    -- The scheduler of the first carrier at the end of p7r_init.
    abbrev pub first : Scheduler
    first =
        start_main main
          (with_policy enabled max_tokens (scheduler_init index stacks tokens uthreads))

    -- Where the stacks and the main uthread are distinct, in every state that the first scheduler
    -- gets to after p7r_init, by turns of its carrier and by what its running uthread does, as long
    -- as the timers and the events name live uthreads: each uthread stands in at most one queue or
    -- has a free stack, and the running one stands in the running queue.
    pub first-Reach :
        {s : Scheduler} → ((x : ℕ) → count x (main ∷ stacks) ≤ 1) → Reach first s → IsSound s
    unfolding start_main with_policy scheduler_init
    first-Reach distinct r =
        Reach-from
          record {
            apart = λ x. ground (arith, distinct x);
            ran = λ x e. ground (arith, e, distinct x);
          }
          r
