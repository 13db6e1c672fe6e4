-- ===== src/Tests/DoubleQueues.antt =====
-- A producer puts 7 into a double queue; the scheduler turns it while the producer is at work again.
use servcraft.Prelude.{ℕ, ◌≡◌, refl, [], ◌++◌}
use servcraft.P7.DoubleQueue.{
  System, Step, p_mark, p_aim, p_add, p_unmark, c_load, c_turn, c_choose, c_take, Reach, here,
  later, mark, unmark, append_at, flip,
}
use servcraft.P7.DoubleQueue.Fifo.{Implements, contents, Reach-Implements, Reach-fifo}

record Run : Type 0 where
  last : System ℕ
  reach : Reach last

abbrev filled : Run
unfolding mark unmark append_at flip
filled = record {
  last = _;
  reach =
      later (p_unmark refl) (later (p_add 7 refl) (later (p_aim refl) (later (p_mark refl) here)));
}

-- The scheduler drains the list of 7, and the producer is about to add to the other one.
abbrev busy : Run
unfolding mark unmark append_at flip
busy = record {
  last = _;
  reach = later (p_aim refl) (
      later (p_mark refl)
        (later (c_choose refl) (later (c_turn refl) (later (c_load refl) filled.reach))));
}

abbrev taken : Run
unfolding mark unmark append_at flip
taken = record { last = _; reach = later (c_take 7 [] refl refl) busy.reach }

taking : Step busy.last taken.last
unfolding mark unmark append_at flip
taking = c_take 7 [] refl refl

Reach-Implements_example : Implements busy.last taken.last
Reach-Implements_example = Reach-Implements busy.reach taking

Reach-fifo_example : taken.last.consumed ++ contents taken.last.mem ≡ taken.last.produced
Reach-fifo_example = Reach-fifo taken.reach
