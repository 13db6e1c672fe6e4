-- ===== src/P7/Runtime/Requests/Laws.antt =====
-- p7/p7impl.c: the pool of requests, the carrier that gets the next coroutine, and the retries.
use servcraft.Prelude.{
  ℕ, zero, suc, ◌+◌, ◌*◌, ◌≤◌, ◌<◌, ◌≡◌, ◌≢◌, [], ◌∷◌, ◌++◌, arith, length, length-append, ◌==◌,
  ==_iff, ==_self, leb, if◌then◌else◌, Bool-cases, inl, inr,
}
use servcraft.P7.Runtime.{CoroRq, Carrier, Shared}
use servcraft.P7.Runtime.Requests.{rq_delete, write_yields}

-- The size of a pool of requests is counted, and at most one above its capacity.
abbrev pub IsPool : Shared → Type 0
IsPool s = (s.rq_pool_size ≡ length s.rq_pool_tl) × (s.rq_pool_size ≤ s.rq_pool_cap + 1)

-- The test of p7_coro_rq_delete lets a pool grow to one request above its capacity and no
-- further; a request that is given back goes to the pool of the carrier that made it, at the tail,
-- exactly when that pool is not above its capacity, and no other pool changes.
pub rq_delete-IsPool :
    (rq : CoroRq) (c : Carrier)
    → IsPool (c.carriers rq.from)
    → IsPool ((rq_delete rq c).carriers rq.from)
      × (((rq_delete rq c).carriers rq.from).rq_pool_tl ≡ (
          if leb (c.carriers rq.from).rq_pool_size (c.carriers rq.from).rq_pool_cap
          then (c.carriers rq.from).rq_pool_tl ++ rq ∷ []
          else (c.carriers rq.from).rq_pool_tl))
      × ((i : ℕ) → rq.from ≢ i → (rq_delete rq c).carriers i ≡ c.carriers i)
unfolding rq_delete
rq_delete-IsPool rq c h =
    ground (arith, h, ==_self rq.from, length-append (c.carriers rq.from).rq_pool_tl (rq ∷ []))

-- The loop that writes to a pipe yields once in send_times failed writes: with n failures since
-- the last yield, the failures are the yields times send_times and fewer than send_times more.
pub write_yields-bounds :
    (send_times failures n : ℕ)
    → n < send_times
    → (write_yields send_times failures n * send_times ≤ n + failures)
      × (n + failures < (write_yields send_times failures n + 1) * send_times)
unfolding write_yields
write_yields-bounds t zero n h = omega arith
write_yields-bounds t (suc f) n h = elim (Bool-cases (n + 1 == t)) [
  | inl full ↦
      rw full (omega (arith, (==_iff (n + 1) t).0 full, write_yields-bounds t f 0 (omega arith)))
  | inr part ↦ rw part (omega (arith, write_yields-bounds t f (n + 1) (ground arith)))
]
