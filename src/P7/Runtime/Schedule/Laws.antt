-- ===== src/P7/Runtime/Schedule/Laws.antt =====
-- p7/p7impl.c: coroutines that yield take turns.
use servcraft.Prelude.{
  ℕ, zero, suc, ◌≡◌, ◌≢◌, refl, ap, ◌∙◌, length-append, Bool, Option, none, some, List, [], ◌∷◌,
  ◌++◌, arith, length, get_elem?, ==_self, some_eq,
}
use mathlib.Core.Path.{subst}
use servcraft.P7.Runtime.{CoroCntx, Coro, Carrier}
use servcraft.P7.Runtime.Schedule.{rotated, switch_to, run, run_first, pick_next}

-- Turns in which coroutines only yield: nothing is woken, made, delivered or reaped.
pub data Yields : ℕ → Carrier → Carrier → Type 0 where
  here : {c : Carrier} → Yields zero c c
  turn :
      {n : ℕ} {c d e : Carrier} (has_room : Bool)
      → pick_next has_room c ≡ some d
      → Yields n d e
      → Yields (suc n) c e

switch_to-same :
    (x : ℕ) (co : Coro) (k : Option CoroCntx) (c : Carrier) {d : Carrier}
    → switch_to x co k c ≡ some d
    → (d.coro_queue ≡ c.coro_queue) × (d.running ≡ c.running)
unfolding switch_to
switch_to-same x co none c e = cc
switch_to-same x co (some k) c e = ground (arith, some_eq e)

run_first-head :
    (has_room : Bool) (x : ℕ) (xs : List ℕ) (c : Carrier) {d : Carrier}
    → run_first has_room (x ∷ xs) c ≡ some d
    → (d.coro_queue ≡ x ∷ xs) × (d.running ≡ some x)
unfolding run_first run
run_first-head has_room x xs c e = switch_to-same x _ _ _ e

rotated-turn :
    (x : ℕ) (xs : List ℕ) {last : Option ℕ} {q : List ℕ}
    → last ≡ some x
    → q ≡ x ∷ xs
    → rotated last q ≡ xs ++ x ∷ []
unfolding rotated
rotated-turn x xs r q = rw (r, q, ==_self x) refl

run_first-any :
    (has_room : Bool) (q : List ℕ) (c d : Carrier)
    → q ≢ []
    → run_first has_room q c ≡ some d
    → (d.coro_queue ≡ q) × (d.running ≡ get_elem? q 0)
run_first-any has_room [] c d h e = absurd (h refl)
run_first-any has_room (x ∷ xs) c d h e = run_first-head has_room x xs c e

-- The coroutine that ran last goes to the tail, and the next one runs.
pick_next-turn :
    (has_room : Bool) (x : ℕ) (xs : List ℕ) (c d : Carrier)
    → c.coro_queue ≡ x ∷ xs
    → c.running ≡ some x
    → pick_next has_room c ≡ some d
    → (d.coro_queue ≡ xs ++ x ∷ []) × (d.running ≡ get_elem? (xs ++ x ∷ []) 0)
unfolding pick_next
pick_next-turn has_room x xs c d q r e =
    run_first-any has_room (xs ++ x ∷ []) c d
      (λ n. ground (arith, ap length n, length-append xs (x ∷ [])))
      (subst (λ l. run_first has_room l c ≡ some d) (rotated-turn x xs r q) e)

get_elem?-append_left :
    (xs ys : List ℕ) (i : ℕ) {y : ℕ} → get_elem? xs i ≡ some y → get_elem? (xs ++ ys) i ≡ some y
get_elem?-append_left [] ys i e = cc
get_elem?-append_left (x ∷ xs) ys zero e = e
get_elem?-append_left (x ∷ xs) ys (suc i) e = get_elem?-append_left xs ys i e

-- The first of the queue runs.
first-runs :
    (n y : ℕ) (q : List ℕ) {r : Option ℕ}
    → r ≡ get_elem? q 0
    → get_elem? q n ≡ some y
    → (x : ℕ) × (xs : List ℕ) × (q ≡ x ∷ xs) × (r ≡ some x)
first-runs n y [] e g = cc
first-runs n y (x ∷ xs) e g = (x, xs, refl, e)

-- While all that coroutines do is yield, one that stands n places behind the running one in the
-- run queue runs after n turns.
pub Yields-running :
    {n : ℕ} {c e : Carrier}
    → Yields n c e
    → (y x : ℕ) (xs : List ℕ) → c.coro_queue ≡ x ∷ xs
    → c.running ≡ some x
    → get_elem? (x ∷ xs) n ≡ some y
    → e.running ≡ some y
Yields-running here y x xs q r g = r ∙ g
Yields-running {n = suc n} {c = c} {e = e} (turn {d = d} has_room p rest) y x xs q r g =
    let went = pick_next-turn has_room x xs c d q r p in
    let there = get_elem?-append_left xs (x ∷ []) n g in
    let first = first-runs n y (xs ++ x ∷ []) went.1 there in
    Yields-running rest y first.0 first.1 (went.0 ∙ first.2) first.3
      (subst (λ l. get_elem? l n ≡ some y) first.2 there)
