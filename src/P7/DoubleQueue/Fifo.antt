-- ===== src/P7/DoubleQueue/Fifo.antt =====
-- p7/p7impl.c: the double queue is a queue: it implements one sequence, added to at the tail and
-- taken from at the head.
use servcraft.Prelude.{
  ℕ, ◌-◌, ◌%◌, ◌<◌, ◌≡◌, ◌≢◌, refl, List, [], ◌∷◌, ◌++◌, append-nil, append_assoc, arith, ◌==◌,
  Bool-cases, ==_iff, inl, inr,
}
use mathlib.Core.Path.{subst}
use servcraft.P7.DoubleQueue.{
  DoubleQueue, at, mark, unmark, append_at, flip, Producer, resting, marked, aimed, added, Consumer,
  away, loaded, turned, draining, System, Step, p_mark, p_aim, p_add, p_unmark, c_load, c_turn,
  c_choose, c_take, c_end, start, Reach, here, later, post, turn, pending, drained,
}

-- What the place of the producer says of active_idx.
abbrev Marked : Producer → ℕ → Type 0
Marked resting a = a < 2
Marked marked a = (1 < a) × (a < 4)
Marked (aimed i) a = (1 < a) × (a < 4) × (i ≡ a % 2)
Marked added a = (1 < a) × (a < 4)

-- An index that the scheduler may flip is unmarked, and stays so.
Marked-flip : (p : Producer) {a d : ℕ} → Marked p a → a ≡ d → a < 2 → Marked p (1 - d)
Marked-flip resting h e lt = omega arith
Marked-flip marked h e lt = omega arith
Marked-flip (aimed i) h e lt = omega arith
Marked-flip added h e lt = omega arith

module _ {A : Type 0} where
  -- What the place of the scheduler says: the list that is not active is empty until it turns.
  abbrev Turned : Consumer → DoubleQueue A → Type 0
  Turned away q = at q (1 - q.active_idx % 2) ≡ []
  Turned (loaded d) q = (d ≡ q.active_idx % 2) × (at q (1 - q.active_idx % 2) ≡ [])
  Turned turned q = Unit
  Turned (draining i) q = i ≡ 1 - q.active_idx % 2

  -- Writes to the active list and to the busy bit leave the scheduler where it is.
  Turned-same :
      (c : Consumer) (q r : DoubleQueue A)
      → r.active_idx % 2 ≡ q.active_idx % 2
      → at r (1 - q.active_idx % 2) ≡ at q (1 - q.active_idx % 2)
      → Turned c q
      → Turned c r
  Turned-same away q r bit same h = rw (bit, same) h
  Turned-same (loaded d) q r bit same h = rw (bit, same) h
  Turned-same turned q r bit same h = tt
  Turned-same (draining i) q r bit same h = rw bit h

  -- The sequence that a double queue stands for.
  abbrev pub contents : DoubleQueue A → List A
  contents q = at q (1 - q.active_idx % 2) ++ at q (q.active_idx % 2)

  record Inv (s : System A) : Type 0 where
    pub bits : Marked s.producer s.mem.active_idx
    pub idle : Turned s.consumer s.mem

  start-Inv : Inv start
  start-Inv = record { bits = omega arith; idle = refl }

  -- What one access does to the sequence: nothing, an entry more at the tail, or the first one
  -- taken.
  pub data Implements (s t : System A) : Type 0 where
    stutters :
        contents t.mem ≡ contents s.mem
        → t.produced ≡ s.produced
        → t.consumed ≡ s.consumed
        → Implements s t
    enqueues :
        (x : A)
        → contents t.mem ≡ contents s.mem ++ x ∷ []
        → t.produced ≡ s.produced ++ x ∷ []
        → t.consumed ≡ s.consumed
        → Implements s t
    dequeues :
        (x : A)
        → contents s.mem ≡ x ∷ contents t.mem
        → t.produced ≡ s.produced
        → t.consumed ≡ s.consumed ++ x ∷ []
        → Implements s t

  module _ {s : System A} (inv : Inv s) where
    open inv use {bits, idle}

    at_producer : {p : Producer} → s.producer ≡ p → Marked p s.mem.active_idx
    at_producer e = subst (λ p. Marked p s.mem.active_idx) e bits

    at_consumer : {c : Consumer} → s.consumer ≡ c → Turned c s.mem
    at_consumer e = subst (λ c. Turned c s.mem) e idle

    bits-Step : {t : System A} → Step s t → Marked t.producer t.mem.active_idx
    unfolding mark unmark append_at flip
    bits-Step (p_mark e) = omega arith
    bits-Step (p_aim e) = omega (arith, at_producer e)
    bits-Step (p_add {i} x e) = elim (Bool-cases (i == 0)) [
      | inl z ↦ rw z (omega (arith, at_producer e))
      | inr z ↦ rw z (omega (arith, at_producer e))
    ]
    bits-Step (p_unmark e) = omega arith
    bits-Step (c_load e) = bits
    bits-Step (c_turn {d} e) = elim (Bool-cases (s.mem.active_idx == d)) [
      | inl z ↦ rw z (
          Marked-flip s.producer bits ((==_iff s.mem.active_idx d).0 z)
            (ground (arith, at_consumer e)))
      | inr z ↦ rw z bits
    ]
    bits-Step (c_choose e) = bits
    bits-Step (c_take {i} x rest e q) = elim (Bool-cases (i == 0)) [
      | inl z ↦ rw z bits
      | inr z ↦ rw z bits
    ]
    bits-Step (c_end e q) = bits

    idle-Step : {t : System A} → Step s t → Turned t.consumer t.mem
    unfolding mark unmark append_at flip
    idle-Step (p_mark e) = Turned-same s.consumer s.mem _ (omega arith) refl idle
    idle-Step (p_aim e) = idle
    idle-Step (p_add {i} x e) =
        Turned-same s.consumer s.mem _ (ground arith) (ground (arith, at_producer e)) idle
    idle-Step (p_unmark e) = Turned-same s.consumer s.mem _ (omega arith) refl idle
    idle-Step (c_load e) = ground (arith, at_consumer e)
    idle-Step (c_turn {d} e) = tt
    idle-Step (c_choose e) = refl
    idle-Step (c_take {i} x rest e q) = rw e (ground (arith, at_consumer e))
    idle-Step (c_end e q) = ground (arith, at_consumer e)

    Step-Implements : {t : System A} → Step s t → Implements s t
    unfolding mark unmark append_at flip
    Step-Implements (p_mark e) = stutters (ground arith) refl refl
    Step-Implements (p_aim e) = stutters refl refl refl
    Step-Implements (p_add {i} x e) =
        enqueues x
          (ground (
            arith,
            at_producer e,
            append_assoc s.mem.queue_0 s.mem.queue_1 (x ∷ []),
            append_assoc s.mem.queue_1 s.mem.queue_0 (x ∷ []),
          ))
          refl refl
    Step-Implements (p_unmark e) = stutters (ground arith) refl refl
    Step-Implements (c_load e) = stutters refl refl refl
    Step-Implements (c_turn {d} e) =
        stutters (ground (arith, at_consumer e, append-nil s.mem.queue_0, append-nil s.mem.queue_1))
          refl refl
    Step-Implements (c_choose e) = stutters refl refl refl
    Step-Implements (c_take {i} x rest e q) = dequeues x (ground (arith, at_consumer e)) refl refl
    Step-Implements (c_end e q) = stutters refl refl refl

  Reach-Inv : {s : System A} → Reach s → Inv s
  Reach-Inv here = start-Inv
  Reach-Inv (later step r) = record {
    bits = bits-Step (Reach-Inv r) step;
    idle = idle-Step (Reach-Inv r) step;
  }

  -- In every interleaving each shared access of the producer and of the scheduler leaves the
  -- sequence that the two lists stand for as it is, adds the produced entry at its tail, or takes
  -- the entry at its head; the histories of what was produced and consumed grow accordingly.
  pub Reach-Implements : {s t : System A} → Reach s → Step s t → Implements s t
  Reach-Implements r step = Step-Implements (Reach-Inv r) step

  Implements-fifo :
      {s t : System A}
      → Implements s t
      → s.consumed ++ contents s.mem ≡ s.produced
      → t.consumed ++ contents t.mem ≡ t.produced
  Implements-fifo (stutters c p q) h = rw (c, p, q) h
  Implements-fifo {s} (enqueues x c p q) h =
      rw (c, p, q, ← append_assoc s.consumed (contents s.mem) (x ∷ []), h) refl
  Implements-fifo {s} {t} (dequeues x c p q) h =
      rw (p, q, append_assoc s.consumed (x ∷ []) (contents t.mem), ← c, h) refl

  -- What was consumed, followed by what the two lists hold, is what was produced, in its order:
  -- nothing is lost, doubled or overtaken.
  pub Reach-fifo : {s : System A} → Reach s → s.consumed ++ contents s.mem ≡ s.produced
  Reach-fifo here = refl
  Reach-fifo (later step r) = Implements-fifo (Reach-Implements r step) (Reach-fifo r)

  at_once :
      {s : System A} {i j : ℕ} → Inv s → s.producer ≡ aimed i → s.consumer ≡ draining j → i ≢ j
  at_once {s} inv p c =
      let bits = at_producer inv p in let idle = at_consumer inv c in λ e. omega arith

  -- The list that the producer is about to add to is never the one that the scheduler drains.
  pub Reach-Apart :
      {s : System A} {i j : ℕ} → Reach s → s.producer ≡ aimed i → s.consumer ≡ draining j → i ≢ j
  Reach-Apart r p c = at_once (Reach-Inv r) p c

  -- All accesses of a producer in a row add the entry at the tail, and leave active_idx unmarked.
  pub post-contents :
      (q : DoubleQueue A) (x : A)
      → q.active_idx < 2
      → (contents (post q x) ≡ contents q ++ x ∷ []) × ((post q x).active_idx ≡ q.active_idx)
  unfolding post mark unmark append_at
  post-contents q x h =
      ground (
        arith,
        append_assoc q.queue_0 q.queue_1 (x ∷ []),
        append_assoc q.queue_1 q.queue_0 (x ∷ []),
      )

  -- With no producer at work and the other list drained before, the turn lets the scheduler drain
  -- the whole sequence.
  pub turn-pending :
      (q : DoubleQueue A)
      → q.active_idx < 2
      → pending q ≡ []
      → (pending (turn q) ≡ contents q)
        × (contents (drained (turn q)) ≡ [])
        × (pending (drained (turn q)) ≡ [])
        × ((turn q).active_idx < 2)
        × ((drained (turn q)).active_idx < 2)
  unfolding turn flip pending drained
  turn-pending q h e = ground (arith, append-nil q.queue_0, append-nil q.queue_1)
