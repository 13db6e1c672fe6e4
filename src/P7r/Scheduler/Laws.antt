-- ===== src/P7r/Scheduler/Laws.antt =====
-- p7r/p7r_uthread.c: which uthread is chosen, and when there is none.
use servcraft.Prelude.{
  ℕ, ◌-◌, ◌<◌, ◌≡◌, ap, ◌∙◌, refl, true, false, ◌&&◌, not, Option, none, some, List, [], ◌∷◌, ◌++◌,
  ◌==◌, ==_self, ==_iff, arith, count, erase,
}
use servcraft.P7r.Scheduler.{
  Scheduler, detach, pick_from, cherry_pick, swarm_available, rotate, choose, choose_first,
  resched_request, resched_from, resched_target,
}

erase_absent : (x : ℕ) (xs : List ℕ) → count x xs ≡ 0 → erase x xs ≡ xs
erase_absent x [] h = refl
erase_absent x (y ∷ ys) h = ground (arith, erase_absent x ys, ==_iff x y, ==_iff y x)

-- The one that ran goes behind the others, and the other queues do not have it.
rotate_lem :
    (x : ℕ) (xs : List ℕ) (s : Scheduler)
    → s.running_queue ≡ x ∷ xs
    → count x s.blocking_queue ≡ 0
    → count x s.dying_queue ≡ 0
    → rotate (some x) s ≡ record s { running_queue = xs ++ x ∷ [] }
unfolding rotate detach
rotate_lem x xs s q b d =
    rw (q, ==_self x, erase_absent x s.blocking_queue b, erase_absent x s.dying_queue d) refl

resched_from-ready :
    (y : ℕ) (ys : List ℕ) (r : Scheduler)
    → swarm_available r ≡ false
    → r.running_queue ≡ y ∷ ys
    → resched_from r ≡ some (record r { current = some y }, some y)
unfolding resched_from choose_first choose
resched_from-ready y ys r h q = rw (h, q) refl

resched_from-empty :
    (r : Scheduler)
    → swarm_available r ≡ true
    → r.request_queue ≡ []
    → resched_from r ≡ some (record r { tokens = r.tokens - 1 }, none)
unfolding resched_from cherry_pick pick_from resched_request
resched_from-empty r h q = rw (h, q) refl

-- Where the uthread that ran last is the first of the running queue and in no other one, and another
-- is ready behind it: with the swarm off or without tokens, the one that ran goes to the tail, the
-- next one is the target and runs, and nothing else changes; but with the swarm on, a token and no
-- request, the one that ran goes to the tail, a token is spent, nothing else changes, and the target
-- is null, though uthreads are ready.
pub resched_target-Outcome :
    (s : Scheduler) (x y : ℕ) (ys : List ℕ)
    → s.current ≡ some x
    → s.running_queue ≡ x ∷ y ∷ ys
    → count x s.blocking_queue ≡ 0
    → count x s.dying_queue ≡ 0
    → ((s.swarm_enabled && not (s.tokens == 0)) ≡ false
        → resched_target s
          ≡ some (record s { running_queue = y ∷ ys ++ x ∷ []; current = some y }, some y))
      × (s.swarm_enabled ≡ true
          → 0 < s.tokens
          → s.request_queue ≡ []
          → resched_target s
            ≡ some (record s { running_queue = y ∷ ys ++ x ∷ []; tokens = s.tokens - 1 }, none))
unfolding resched_target swarm_available
resched_target-Outcome s x y ys c q b d =
    let behind : Scheduler = record s { running_queue = y ∷ ys ++ x ∷ [] } in
    let ran : resched_target s ≡ resched_from behind =
      ap (λ (o : Option ℕ). resched_from (rotate o s)) c
      ∙ ap resched_from (rotate_lem x (y ∷ ys) s q b d) in
    (
      λ h. ran ∙ resched_from-ready y (ys ++ x ∷ []) behind h refl,
      λ on some_left n. ran ∙ resched_from-empty behind (ground (arith, on, some_left)) n,
    )
