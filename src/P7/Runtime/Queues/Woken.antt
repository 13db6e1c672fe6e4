-- ===== src/P7/Runtime/Queues/Woken.antt =====
-- p7/p7impl.c: messages, timers and files only move coroutines to the run queue: the lists stay
-- sound and no coroutine is lost.
use servcraft.Prelude.{
  ℕ, ◌≡◌, refl, true, false, List, [], ◌∷◌, arith, All, Bool-cases, inl, inr, ◌⊎◌, sym, ◌∙◌, ==_iff,
  ==_self,
}
use mathlib.Core.Path.{subst}
use servcraft.P7.Runtime.{Coro, Carrier, InternMsg, wakeup, sent, store, unlink, to_coro_queue, own}
use servcraft.P7.Runtime.Waking.{
  wake, handle_sent, handle_intern, handle_all, handle_pipe, ReadyEvent, file, pipe, handle_event,
  handle_events, share,
}
use servcraft.P7.Runtime.Queues.{
  IsSound, IsLive, to_coro_queue-IsSound, to_coro_queue-IsLive, store-IsSound, beside-IsSound,
}

-- From c to d: the lists are sound, a coroutine that was live still is, and none began to wait for
-- a message.
pub record Woken (c d : Carrier) : Type 0 where
  pub sound : IsSound d
  pub live : (y : ℕ) → IsLive y c → IsLive y d
  pub recv : (y : ℕ) → (d.coros y).status.recv ≡ true → (c.coros y).status.recv ≡ true
  pub pipe : ((own d).condpipe ≡ (own c).condpipe) ⊎ ((own d).condpipe ≡ [])
  pub clocks : (y : ℕ) → ((d.timers y).coro ≡ (c.timers y).coro)

-- A message about a coroutine that waits for one names a live coroutine.
abbrev pub Answers : Carrier → InternMsg → Type 0
Answers c wakeup = Unit
Answers c (sent x sender) = (c.coros x).status.recv ≡ true → IsLive x c

-- So do all messages in the pipe.
abbrev pub PipeAnswers : Carrier → Type 0
PipeAnswers c = All (Answers c) (own c).condpipe

Answers-Woken :
    {c d : Carrier} → Woken c d → (ms : List InternMsg) → All (Answers c) ms → All (Answers d) ms
Answers-Woken w [] h = tt
Answers-Woken w (wakeup ∷ ms) h = (tt, Answers-Woken w ms h.1)
Answers-Woken w (sent x sender ∷ ms) h = (λ r. w.live x (h.0 (w.recv x r)), Answers-Woken w ms h.1)

pub PipeAnswers-Woken : {c d : Carrier} → Woken c d → PipeAnswers c → PipeAnswers d
PipeAnswers-Woken {c} {d} w h = elim w.pipe [
  | inl same ↦ subst (All (Answers d)) (sym same) (Answers-Woken w (own c).condpipe h)
  | inr empty ↦ subst (All (Answers d)) (sym empty) tt
]

pub Live-Woken :
    {c d : Carrier}
    → Woken c d
    → (xs : List ℕ) → All (λ x. IsLive x c) xs
    → All (λ x. IsLive x d) xs
Live-Woken w [] h = tt
Live-Woken w (x ∷ xs) h = (w.live x h.0, Live-Woken w xs h.1)

either_trans :
    {A : Type 0} {a b c e : A} → (b ≡ a) ⊎ (b ≡ e) → (c ≡ b) ⊎ (c ≡ e) → (c ≡ a) ⊎ (c ≡ e)
either_trans (inl p) (inl q) = inl cc
either_trans (inr p) (inl q) = inr cc
either_trans p (inr q) = inr q

pub Woken-trans : {c d e : Carrier} → Woken c d → Woken d e → Woken c e
Woken-trans {c} {d} {e} p q = record {
  sound = q.sound;
  live = λ y h. q.live y (p.live y h);
  recv = λ y h. p.recv y (q.recv y h);
  pipe = either_trans p.pipe q.pipe;
  clocks = λ y. q.clocks y ∙ p.clocks y;
}

pub Woken-self : {c : Carrier} → IsSound c → Woken c c
Woken-self s = record {
  sound = s;
  live = λ y h. h;
  recv = λ y h. h;
  pipe = inl refl;
  clocks = λ y. refl;
}

module _ {c : Carrier} (sound : IsSound c) (x : ℕ) where
  pub wake-Woken : IsLive x c → Woken c (wake x c)
  unfolding wake to_coro_queue unlink
  wake-Woken live = elim (Bool-cases (c.coros x).resched) [
    | inl set ↦ rw set (Woken-self sound)
    | inr unset ↦ rw unset record {
      sound =
          store-IsSound (to_coro_queue-IsSound sound x live) x _
            (ground (arith, (to_coro_queue-IsLive sound x live).0));
      live = (to_coro_queue-IsLive sound x live).1;
      recv = λ y h. ground (arith, ==_iff x y, h);
      pipe = inl refl;
      clocks = λ y. refl;
    }
  ]

  -- A write to a coroutine that changes neither its place nor, but to no, what it waits for.
  pub store-Woken :
      (co : Coro)
      → co.resched ≡ (c.coros x).resched
      → (co.status.recv ≡ true → (c.coros x).status.recv ≡ true)
      → Woken c (store x co c)
  store-Woken co same h = record {
    sound = store-IsSound sound x co (λ q. ground (arith, same, sound.wakeable x q));
    live = λ y l. l;
    recv = λ y r. ground (arith, ==_iff x y, r, h);
    pipe = inl refl;
    clocks = λ y. refl;
  }

module _ {c : Carrier} (sound : IsSound c) (x : ℕ) where
  write_off-Woken :
      {d : Carrier}
      → Woken c d
      → (co : Coro) → co.resched ≡ (d.coros x).resched
      → co.status.recv ≡ false
      → Woken c (store x co d)
  write_off-Woken w co same off = Woken-trans w (store-Woken w.sound x co same (λ r. cc))

  handle_sent-Woken : ((c.coros x).status.recv ≡ true → IsLive x c) → Woken c (handle_sent x c)
  unfolding handle_sent
  handle_sent-Woken h = elim (Bool-cases (c.coros x).status.recv) [
    | inl waits ↦ rw waits (write_off-Woken (wake-Woken sound x (h waits)) _ refl refl)
    | inr busy ↦ rw busy (Woken-self sound)
  ]

handle_intern-Woken :
    {c : Carrier} → IsSound c → (m : InternMsg) → Answers c m → Woken c (handle_intern m c)
unfolding handle_intern
handle_intern-Woken sound wakeup h = Woken-self sound
handle_intern-Woken sound (sent x sender) h = handle_sent-Woken sound x h

handle_all-Woken :
    (ms : List InternMsg) {c : Carrier} → IsSound c → All (Answers c) ms → Woken c (handle_all ms c)
unfolding handle_all
handle_all-Woken [] sound h = Woken-self sound
handle_all-Woken (m ∷ ms) sound h =
    let w = handle_intern-Woken sound m h.0 in
    Woken-trans w (handle_all-Woken ms w.sound (Answers-Woken w ms h.1))

handle_pipe-Woken : {c : Carrier} → IsSound c → PipeAnswers c → Woken c (handle_pipe c)
unfolding handle_pipe
handle_pipe-Woken {c} sound h =
    let emptied : Woken c (share c.carrier_id (record (own c) { condpipe = [] }) c) = record {
      sound = beside-IsSound sound _ _ _ _ _ _;
      live = λ y l. l;
      recv = λ y r. r;
      pipe = inr (rw (==_self c.carrier_id) refl);
      clocks = λ y. refl;
    } in
    Woken-trans emptied
      (handle_all-Woken (own c).condpipe emptied.sound (Answers-Woken emptied (own c).condpipe h))

-- The coroutines whose files are ready.
abbrev pub waiting : List ReadyEvent → List ℕ
waiting [] = []
waiting (file x ∷ es) = x ∷ waiting es
waiting (pipe ∷ es) = waiting es

pub handle_events-Woken :
    (es : List ReadyEvent) {c : Carrier}
    → IsSound c
    → PipeAnswers c
    → All (λ x. IsLive x c) (waiting es)
    → Woken c (handle_events es c)
unfolding handle_events handle_event
handle_events-Woken [] sound p h = Woken-self sound
handle_events-Woken (file x ∷ es) {c} sound p h =
    let ready =
      store-Woken sound x
        (record (c.coros x) { status = record (c.coros x).status { ioready = true } }) refl
        (λ r. r) in
    let w = Woken-trans ready (wake-Woken ready.sound x h.0) in
    Woken-trans w
      (handle_events-Woken es w.sound (PipeAnswers-Woken w p) (Live-Woken w (waiting es) h.1))
handle_events-Woken (pipe ∷ es) sound p h =
    let w = handle_pipe-Woken sound p in
    Woken-trans w
      (handle_events-Woken es w.sound (PipeAnswers-Woken w p) (Live-Woken w (waiting es) h))
