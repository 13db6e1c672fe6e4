-- ===== src/P7/Runtime/Queues/Ready.antt =====
-- p7/p7impl.c: what a running coroutine calls keeps the lists sound.
use mathlib.Core.Path.{subst}
use servcraft.Prelude.{
  ℕ, ◌≡◌, ◌≢◌, refl, Bool, true, false, Option, none, some, List, [], ◌∷◌, ◌++◌, arith,
  count-append, count-erase, length-erase, erase, erase-append_last, ◌==◌, ==_iff, Bool-cases, inl,
  inr, is_nil,
}
use servcraft.P7.Runtime.{Coro, Msg, Carrier, UserCall, store, unlink, to_coro_queue}
use servcraft.P7.Runtime.Coroutines.{limbo, resume_following, retire}
use servcraft.P7.Runtime.Mail.{send_by_entity, notify, put_message, take_first, mailbox_extract}
use servcraft.P7.Runtime.Blocking.{
  blocking_point, recv_begin, recv_end, iowrap_begin, iowrap_end, io_notify_begin, io_notify_end,
  set_recv,
}
use servcraft.P7.Runtime.Queues.{
  IsSound, IsLive, store-IsSound, beside-IsSound, blocking_point-IsSound, to_coro_queue-IsSound,
}
use servcraft.P7.Runtime.Queues.Turn.{IsPicked}

-- The coroutine that waits for another one to end waits, and is not that one.
abbrev pub Follows : Carrier → ℕ → Option ℕ → Type 0
Follows c x none = Unit
Follows c x (some f) = IsLive f c × (x ≢ f)

module _ {c : Carrier} (sound : IsSound c) (x : ℕ) (runs : c.running ≡ some x) where
  open sound use {apart, counted, within, ran, wakeable}

  -- The running coroutine goes to the dying.
  abbrev ended : Coro → List UserCall → Carrier
  ended co calls = record (store x co (unlink x c)) {
    calls = calls;
    running = none;
    dying_queue = (unlink x c).dying_queue ++ x ∷ [];
  }

  ended-IsSound : (co : Coro) (calls : List UserCall) → IsSound (ended co calls)
  unfolding unlink
  ended-IsSound co calls = record {
    apart = λ y. ground (
      arith,
      apart y,
      ran x runs,
      count-append y (erase x c.dying_queue) (x ∷ []),
      count-erase y x c.coro_queue,
      count-erase y x c.blocking_queue,
      count-erase y x c.dying_queue,
      count-erase y x c.coro_pool_tl,
    );
    counted = ground (arith, counted, apart x, ran x runs, length-erase x c.coro_pool_tl);
    within = within;
    ran = λ y r. cc;
    wakeable = λ y q.
        ground
          (arith, wakeable y, apart x, ran x runs, ==_iff x y, count-erase y x c.blocking_queue);
  }

  -- The one that waited for it is live as before.
  ended-IsLive :
      (co : Coro) (calls : List UserCall) (f : ℕ) → IsLive f c → x ≢ f → IsLive f (ended co calls)
  unfolding unlink
  ended-IsLive co calls f live h =
      ground
        (arith, live, h, ==_iff x f, count-erase f x c.coro_queue, count-erase f x c.blocking_queue)

  retire-IsSound :
      (o : Option ℕ) (co : Coro) (calls : List UserCall)
      → Follows c x o
      → IsSound (retire o x co calls c)
  unfolding retire resume_following to_coro_queue unlink
  retire-IsSound none co calls h = ended-IsSound co calls
  retire-IsSound (some f) co calls h =
      subst
        (λ (q : List ℕ). IsSound (record (to_coro_queue f (ended co calls)) { dying_queue = q }))
        (erase-append_last f x (erase x c.dying_queue) h.1)
        (to_coro_queue-IsSound (ended-IsSound co calls) f (ended-IsLive co calls f h.0 h.1))

  -- A coroutine that ends, while the one that waits for it does so.
  pub limbo-IsSound : Follows c x (c.coros x).following → IsSound (limbo x c)
  unfolding limbo
  limbo-IsSound h = retire-IsSound (c.coros x).following _ _ h

-- The state between two accesses of a carrier.
abbrev pub IsReady : Carrier → Type 0
IsReady c = IsSound c × IsPicked c

stored-IsReady :
    {c : Carrier}
    → IsReady c
    → (x : ℕ) (co : Coro) → co.resched ≡ (c.coros x).resched
    → IsReady (store x co c)
stored-IsReady {c} r x co same = (
  store-IsSound r.0 x co (λ q. ground (arith, same, r.0.wakeable x q)),
  λ y e. ground (arith, r.1 y e, same, ==_iff x y),
)

module _ {c : Carrier} (ready : IsReady c) where
  pub send_by_entity-IsReady : (target : ℕ) (msg : Msg) → IsReady (send_by_entity target msg c).0
  unfolding send_by_entity notify put_message
  send_by_entity-IsReady target msg = elim (Bool-cases (c.coros target).status.alive) [
    | inl alive ↦ rw alive (elim (Bool-cases ((c.coros target).carrier_id == c.carrier_id)) [
      | inl home ↦ rw home (beside-IsSound ready.0 _ _ _ _ _ _, ready.1)
      | inr away ↦ rw away (beside-IsSound ready.0 _ _ _ _ _ _, ready.1)
    ])
    | inr dead ↦ rw dead ready
  ]

  module _ (x : ℕ) (runs : c.running ≡ some x) where
    block-IsReady :
        (co : Coro) → co.resched ≡ (c.coros x).resched → IsReady (blocking_point x (store x co c))
    unfolding blocking_point
    block-IsReady co same =
        let stored = stored-IsReady ready x co same in
        (blocking_point-IsSound stored.0 x runs (stored.1 x runs), λ y e. cc)

    pub recv_begin-IsReady : IsReady (recv_begin x c).0
    unfolding recv_begin
    recv_begin-IsReady = elim (Bool-cases (is_nil (c.coros x).mailbox)) [
      | inl empty ↦ rw empty (block-IsReady _ refl)
      | inr held ↦ rw held ready
    ]

    pub iowrap_begin-IsReady : (fd : ℕ) (is_added : Bool) → IsReady (iowrap_begin x fd is_added c).0
    unfolding iowrap_begin
    iowrap_begin-IsReady fd true = block-IsReady _ refl
    iowrap_begin-IsReady fd false = ready

    pub iowrap_end-IsReady : IsReady (iowrap_end x c).0
    unfolding iowrap_end
    iowrap_end-IsReady = stored-IsReady ready x _ refl

    pub io_notify_end-IsReady : IsReady (io_notify_end x c).0
    unfolding io_notify_end
    io_notify_end-IsReady = stored-IsReady iowrap_end-IsReady x _ refl

    take_first-IsReady : {d : Carrier} → IsReady d → (ms : List Msg) → IsReady (take_first x ms d).0
    unfolding take_first
    take_first-IsReady h [] = h
    take_first-IsReady h (m ∷ ms) = stored-IsReady h x _ refl

    pub recv_end-IsReady : (has_blocked : Bool) → IsReady (recv_end x has_blocked c).0
    unfolding recv_end mailbox_extract
    recv_end-IsReady true = take_first-IsReady (stored-IsReady ready x _ refl) _
    recv_end-IsReady false = take_first-IsReady ready _

pub io_notify_begin-IsReady :
    {c : Carrier}
    → IsReady c
    → (x : ℕ) → c.running ≡ some x
    → (fd : ℕ) (is_added : Bool) → IsReady (io_notify_begin x fd is_added c).0
unfolding io_notify_begin
io_notify_begin-IsReady {c} ready x runs fd is_added =
    elim (Bool-cases (is_nil (c.coros x).mailbox)) [
      | inl empty ↦ rw empty (
          iowrap_begin-IsReady (stored-IsReady ready x (set_recv true (c.coros x)) refl) x runs fd
            is_added)
      | inr held ↦ rw held ready
    ]
