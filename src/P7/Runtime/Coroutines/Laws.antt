-- ===== src/P7/Runtime/Coroutines/Laws.antt =====
-- p7/p7impl.c: what a new coroutine starts with.
use servcraft.Prelude.{
  ℕ, ◌≡◌, ◌%◌, ◌^◌, refl, Bool, false, Option, none, some, List, [], ◌∷◌, arith, ==_self,
}
use servcraft.P7.Runtime.{CoroCntx, Coro, Carrier, Msg, unlink}
use servcraft.P7.Runtime.Coroutines.{
  spawned, coro_new, coro_new_from, coro_new_inner, pool_take, coro_init, coro_reuse,
}

-- What every new coroutine has.
abbrev pub IsNew : Option ℕ → ℕ → ℕ → ℕ → Coro → Type 0
IsNew entry arg stack_size carrier_id co =
    (co.entry ≡ entry)
    × (co.arg ≡ arg)
    × (co.stack_size ≡ stack_size % 2 ^ 32)
    × (co.carrier_id ≡ carrier_id)
    × (co.status ≡ spawned)
    × (co.decay ≡ 0)
    × (co.resched ≡ false)
    × (co.timedout ≡ false)
    × (co.fd_waiting ≡ none)

-- The mailbox that a coroutine starts with.
abbrev pub first_mailbox : List ℕ → Carrier → List Msg
first_mailbox [] c = []
first_mailbox (x ∷ xs) c = (c.coros x).mailbox

module _ (entry : Option ℕ) (arg stack_size carrier_id : ℕ) (linked : Bool) where
  abbrev pub Starts : List ℕ → Carrier → Option (Carrier × Option ℕ) → Type 0
  Starts pool c none = Unit
  Starts pool c (some (d, none)) = d ≡ c
  Starts pool c (some (d, some x)) =
      IsNew entry arg stack_size carrier_id (d.coros x)
      × ((d.coros x).mailbox ≡ first_mailbox pool c)

  Starts-inner :
      (xs : List ℕ) (c : Carrier)
      → Starts [] c (coro_new_inner entry arg stack_size carrier_id xs c)
  unfolding coro_new_inner coro_init
  Starts-inner [] c = refl
  Starts-inner (x ∷ xs) c = ground (arith, ==_self x)

  Starts-pool :
      (x : ℕ) (xs : List ℕ) (k : Option CoroCntx) (c : Carrier)
      → Starts (x ∷ xs) c (pool_take entry arg stack_size carrier_id linked x k c)
  unfolding pool_take coro_reuse unlink
  Starts-pool x xs none c = tt
  Starts-pool x xs (some k) c = ground (arith, ==_self x)

  Starts-from :
      (xs : List ℕ) (c : Carrier)
      → Starts xs c (coro_new_from entry arg stack_size carrier_id linked xs c)
  unfolding coro_new_from
  Starts-from [] c = Starts-inner c.fresh c
  Starts-from (x ∷ xs) c = Starts-pool x xs (c.coros x).cntx c

  -- p7_coro_new follows a null context, returns null and changes nothing, or gives a coroutine with
  -- the entry, the argument, the stack size and the carrier that were asked for, alive and spawning,
  -- not woken, not timed out, waiting for no file. Its mailbox is empty where its memory is new; one
  -- from the pool starts with the messages that its last owner left.
  pub coro_new-Starts :
      (c : Carrier) → Starts c.coro_pool_tl c (coro_new entry arg stack_size carrier_id linked c)
  unfolding coro_new
  coro_new-Starts c = Starts-from c.coro_pool_tl c
