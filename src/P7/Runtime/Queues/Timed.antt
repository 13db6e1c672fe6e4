-- ===== src/P7/Runtime/Queues/Timed.antt =====
-- p7/p7impl.c: expired timers only move coroutines to the run queue, as messages and files do.
use servcraft.Prelude.{
  ℕ, refl, true, Option, none, some, List, [], ◌∷◌, ◌++◌, arith, All, Bool-cases, inl, inr, sym,
  ltb, ==_iff,
}
use mathlib.Core.Path.{subst}
use servcraft.P7.Runtime.{Carrier, delete}
use servcraft.P7.Runtime.Waking.{
  ReadyEvent, handle_events, time_out, expire, expire_all, hook_calls,
}
use servcraft.P7.Runtime.Queues.{IsSound, IsLive, beside-IsSound}
use servcraft.P7.Runtime.Queues.Woken.{
  Woken, PipeAnswers, PipeAnswers-Woken, Live-Woken, Woken-trans, Woken-self, wake-Woken,
  store-Woken, waiting, handle_events-Woken,
}

-- The coroutine of a timer event, if it has one, is live.
abbrev pub TimesOut : Carrier → Option ℕ → Type 0
TimesOut c none = Unit
TimesOut c (some x) = IsLive x c

time_out-Woken : {c : Carrier} → IsSound c → (o : Option ℕ) → TimesOut c o → Woken c (time_out o c)
unfolding time_out
time_out-Woken sound none h = Woken-self sound
time_out-Woken {c} sound (some x) h =
    let late = store-Woken sound x (record (c.coros x) { timedout = true }) refl (λ r. r) in
    Woken-trans late (wake-Woken late.sound x h)

-- What expire does beside the wake: the tree, the hook and the flag of the event.
expire-Woken :
    {c : Carrier} → IsSound c → (ev : ℕ) → TimesOut c (c.timers ev).coro → Woken c (expire ev c)
unfolding expire
expire-Woken {c} sound ev h =
    let w =
      time_out-Woken
        {c = record c {
          timer_queue = c.timer_queue ++ delete ev ∷ [];
          calls = c.calls ++ hook_calls (c.timers ev).hook_func (c.timers ev).hook_arg;
        }}
        (beside-IsSound sound _ _ _ _ _ _) (c.timers ev).coro h in
    record {
      sound = beside-IsSound w.sound _ _ _ _ _ _;
      live = w.live;
      recv = w.recv;
      pipe = w.pipe;
      clocks = λ y. ground (arith, w.clocks y, w.clocks ev, ==_iff ev y);
    }

-- The timers that may expire name live coroutines.
abbrev pub TimersAnswer : Carrier → List ℕ → Type 0
TimersAnswer c evs = All (λ ev. TimesOut c (c.timers ev).coro) evs

TimesOut-Woken : {c d : Carrier} → Woken c d → (o : Option ℕ) → TimesOut c o → TimesOut d o
TimesOut-Woken w none h = tt
TimesOut-Woken w (some x) h = w.live x h

TimersAnswer-Woken :
    {c d : Carrier} → Woken c d → (evs : List ℕ) → TimersAnswer c evs → TimersAnswer d evs
TimersAnswer-Woken w [] h = tt
TimersAnswer-Woken {c} {d} w (ev ∷ evs) h = (
  subst (TimesOut d) (sym (w.clocks ev)) (TimesOut-Woken w (c.timers ev).coro h.0),
  TimersAnswer-Woken w evs h.1,
)

expire_all-Woken :
    (evs : List ℕ) (now : ℕ) {c : Carrier}
    → IsSound c
    → TimersAnswer c evs
    → Woken c (expire_all now evs c)
unfolding expire_all
expire_all-Woken [] now sound h = Woken-self sound
expire_all-Woken (ev ∷ evs) now {c} sound h = elim (Bool-cases (ltb now (c.timers ev).tval)) [
  | inl later ↦ rw later (Woken-self sound)
  | inr due ↦ rw due (
      let w = expire-Woken sound ev h.0 in
      Woken-trans w (expire_all-Woken evs now w.sound (TimersAnswer-Woken w evs h.1)))
]

-- Timers and events together, as one turn handles them.
pub awake-Woken :
    {c : Carrier} (now : ℕ) (evs : List ℕ) (es : List ReadyEvent)
    → IsSound c
    → TimersAnswer c evs
    → PipeAnswers c
    → All (λ x. IsLive x c) (waiting es)
    → Woken c (handle_events es (expire_all now evs c))
awake-Woken now evs es sound t p h =
    let w = expire_all-Woken evs now sound t in
    Woken-trans w
      (handle_events-Woken es w.sound (PipeAnswers-Woken w p) (Live-Woken w (waiting es) h))
