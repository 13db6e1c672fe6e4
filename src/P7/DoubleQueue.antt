-- ===== src/P7/DoubleQueue.antt =====
-- p7/p7impl.h and p7/p7impl.c: struct p7_double_queue, and the same pair of lists and active_idx
-- in sched_info, by which one carrier takes requests and messages from another without a lock. The
-- producer writes to the active list and the scheduler drains the other one. The two are
-- interleaved one shared access at a time, sequentially consistent.
pub mod Fifo
use servcraft.Prelude.{ℕ, ◌+◌, ◌-◌, ◌/◌, ◌%◌, ◌≡◌, ◌≢◌, List, [], ◌∷◌, ◌++◌, ◌==◌, if◌then◌else◌}

pub record DoubleQueue (A : Type 0) : Type 0 where
  pub queue_0 : List A
  pub queue_1 : List A
  pub active_idx : ℕ
  pub writing_busy : ℕ

module _ {A : Type 0} where
  -- p7_double_queue_init.
  abbrev pub init : DoubleQueue A
  init = record { queue_0 = []; queue_1 = []; active_idx = 0; writing_busy = 0 }

  -- queue[i], for an index of one bit.
  abbrev pub at : DoubleQueue A → ℕ → List A
  at q i = if i == 0 then q.queue_0 else q.queue_1

  abbrev pub put_at : DoubleQueue A → ℕ → List A → DoubleQueue A
  put_at q i xs = if i == 0 then record q { queue_0 = xs } else record q { queue_1 = xs }

  -- __atomic_or_fetch of active_idx with 0x2, for a value of two bits.
  unfoldable pub mark : DoubleQueue A → DoubleQueue A
  mark q = record q { active_idx = q.active_idx % 2 + 2 }

  -- __atomic_and_fetch of active_idx with 0x1.
  unfoldable pub unmark : DoubleQueue A → DoubleQueue A
  unmark q = record q { active_idx = q.active_idx % 2 }

  -- list_add_tail to the list that active_idx & 0x1 named when it was loaded.
  unfoldable pub append_at : DoubleQueue A → ℕ → A → DoubleQueue A
  append_at q i x = put_at q i (at q i ++ x ∷ [])

  -- The compare-exchange of active_idx from the loaded bit to the other one.
  unfoldable pub flip : DoubleQueue A → ℕ → DoubleQueue A
  flip q desired = if q.active_idx == desired then record q { active_idx = 1 - desired } else q

  -- All accesses of a producer in a row.
  unfoldable pub post : DoubleQueue A → A → DoubleQueue A
  post q x = let marked = mark q in unmark (append_at marked (marked.active_idx % 2) x)

  -- The accesses of the scheduler up to the choice of the list to drain, in a row.
  unfoldable pub turn : DoubleQueue A → DoubleQueue A
  turn q = flip q (q.active_idx % 2)

  unfoldable pub pending : DoubleQueue A → List A
  pending q = at q (1 - q.active_idx % 2)

  unfoldable pub drained : DoubleQueue A → DoubleQueue A
  drained q = put_at q (1 - q.active_idx % 2) []

-- Where the producer stands: before the or, after it, with the index it loaded, or done adding.
pub data Producer : Type 0 where
  resting : Producer
  marked : Producer
  aimed : (i : ℕ) → Producer
  added : Producer

-- Where the scheduler stands: before the load, with the bit it loaded, after the
-- compare-exchange, or draining the list that it chose.
pub data Consumer : Type 0 where
  away : Consumer
  loaded : (desired : ℕ) → Consumer
  turned : Consumer
  draining : (i : ℕ) → Consumer

-- The queue, the two places, and what was put in and taken out so far, in order.
pub record System (A : Type 0) : Type 0 where
  pub mem : DoubleQueue A
  pub producer : Producer
  pub consumer : Consumer
  pub produced : List A
  pub consumed : List A

module _ {A : Type 0} where
  -- One shared access of the producer or of the scheduler.
  pub data Step (s : System A) : System A → Type 0 where
    p_mark : s.producer ≡ resting → Step s (record s { mem = mark s.mem; producer = marked })
    p_aim : s.producer ≡ marked → Step s (record s { producer = aimed (s.mem.active_idx % 2) })
    p_add :
        {i : ℕ} (x : A)
        → s.producer ≡ aimed i
        → Step s (record s {
          mem = append_at s.mem i x;
          producer = added;
          produced = s.produced ++ x ∷ [];
        })
    p_unmark : s.producer ≡ added → Step s (record s { mem = unmark s.mem; producer = resting })
    c_load : s.consumer ≡ away → Step s (record s { consumer = loaded (s.mem.active_idx % 2) })
    c_turn :
        {d : ℕ}
        → s.consumer ≡ loaded d
        → Step s (record s { mem = flip s.mem d; consumer = turned })
    c_choose :
        s.consumer ≡ turned → Step s (record s { consumer = draining (1 - s.mem.active_idx % 2) })
    c_take :
        {i : ℕ} (x : A) (rest : List A)
        → s.consumer ≡ draining i
        → at s.mem i ≡ x ∷ rest
        → Step s (record s { mem = put_at s.mem i rest; consumed = s.consumed ++ x ∷ [] })
    c_end :
        {i : ℕ} → s.consumer ≡ draining i → at s.mem i ≡ [] → Step s (record s { consumer = away })

  abbrev pub start : System A
  start = record { mem = init; producer = resting; consumer = away; produced = []; consumed = [] }

  pub data Reach : System A → Type 0 where
    here : Reach start
    later : {before after : System A} → Step before after → Reach before → Reach after
