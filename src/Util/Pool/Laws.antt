-- ===== src/Util/Pool/Laws.antt =====
-- The pool is a bounded first-in first-out queue of isolated nodes.
use servcraft.Prelude.{
  ℕ, ◌≤◌, ◌<◌, ◌≡◌, ◌≢◌, refl, true, false, none, some, List, [], ◌∷◌, ◌++◌, arith, has, length,
  length-append, ltb, Bool-cases, inl, inr, Option, ==_of_ne,
}
use servcraft.Util.Ring.{Links, null, list_node_isolated}
use servcraft.Util.Ring.Chain.{IsRing}
use servcraft.Util.Ring.Edits.{init_list_head-IsRing, list_add_tail-IsRing}
use servcraft.Util.Ring.Removal.{list_del-IsRing}
use servcraft.Util.Pool.{ObjectPool, PutStatus, success, fail_full, put, get, init}

-- The ring of the pool holds xs, the counter is their number, and the bound is kept.
pub record IsPool (p : ObjectPool) (l : Links) (xs : List ℕ) : Type 0 where
  pub ring : IsRing l p.pool xs
  pub counted : p.size ≡ length xs
  pub bounded : p.size ≤ p.cap

pub init-IsPool :
    (pool cap : ℕ) (l : Links) → pool ≢ null → IsPool (init pool cap l).0 (init pool cap l).1 []
unfolding init
init-IsPool pool cap l ne = record {
  ring = init_list_head-IsRing pool l ne;
  counted = refl;
  bounded = omega arith;
}

-- What a put leaves behind, by the status that it returns.
abbrev pub PutOutcome : ObjectPool → Links → List ℕ → ℕ → ObjectPool × Links × PutStatus → Type 0
PutOutcome p l xs e (p', l', success) = (p.size < p.cap) × IsPool p' l' (xs ++ e ∷ [])
PutOutcome p l xs e (p', l', fail_full) = (p.size ≡ p.cap) × (p' ≡ p) × (l' ≡ l)

module _ (p : ObjectPool) (l : Links) (xs : List ℕ) (v : IsPool p l xs) where
  -- A put below the bound appends the node and succeeds, and the pool stays in order; at the
  -- bound it is refused and changes nothing.
  pub put-PutOutcome :
      (e : ℕ) → has e (p.pool ∷ xs) ≡ false → e ≢ null → PutOutcome p l xs e (put p e l)
  unfolding put
  put-PutOutcome e out ne = elim (Bool-cases (ltb p.size p.cap)) [
    | inl room ↦ rw room (
      ground arith,
      record {
        ring = list_add_tail-IsRing l p.pool e xs v.ring out ne;
        counted = omega (arith, length-append xs (e ∷ []), v.counted);
        bounded = ground arith;
      },
    )
    | inr full ↦ rw full (ground (arith, v.bounded), refl, refl)
  ]

-- What a get leaves behind, by the objects that the pool held.
abbrev pub GetOutcome : ObjectPool → Links → List ℕ → ObjectPool × Links × Option ℕ → Type 0
GetOutcome p l [] (p', l', o) = (p' ≡ p) × (l' ≡ l) × (o ≡ none)
GetOutcome p l (x ∷ xs) (p', l', o) =
    IsPool p' l' xs × (p'.cap ≡ p.cap) × (o ≡ some x) × (list_node_isolated x l' ≡ true)

-- A get from a pool in order takes out the oldest node, isolated, and leaves the pool in order;
-- an empty pool gives none and does not change.
pub get-GetOutcome :
    (p : ObjectPool) (l : Links) (xs : List ℕ) → IsPool p l xs → GetOutcome p l xs (get p l)
unfolding get
get-GetOutcome p l [] v = rw v.counted (refl, refl, refl)
get-GetOutcome p l (x ∷ xs) v =
    let head : l.next p.pool ≡ x = v.ring.chain.0 in
    let removed = list_del-IsRing l p.pool x [] xs v.ring in
    rw (==_of_ne p.size 0 (ground (arith, v.counted)), head)
      (
        record {
          ring = removed.0;
          counted = ground (arith, v.counted);
          bounded = ground (arith, v.bounded);
        },
        refl,
        refl,
        removed.1,
      )
