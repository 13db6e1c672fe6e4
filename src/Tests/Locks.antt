-- ===== src/Tests/Locks.antt =====
-- Two threads over one lock: one writes, the other waits for its turn to read.
use servcraft.Prelude.{ℕ, ◌≡◌, refl, ◌≤◌, false, some, arith}
use servcraft.P7.RwSpin.{
  System, pick, Reach, here, later, wr_request, wr_turn, wr_enter, wr_load, rd_request, ticket,
  counted, writes,
}
use servcraft.P7.RwSpin.Invariant.{ahead}
use servcraft.P7.RwSpin.Exclusion.{write_exclusion, turn_taken, no_overtaking}

record Run : Type 0 where
  last : System
  reach : Reach 2 last

-- Thread 0 requests, sees its turn and no reader, and writes; thread 1 requests to read.
abbrev contended : Run
contended = record {
  last = _;
  reach = later (pick 1 rd_request (omega arith)) (
      later (pick 0 (wr_enter refl) (omega arith)) (
        later (pick 0 (wr_turn refl) (omega arith))
          (later (pick 0 wr_request (omega arith)) here)));
}

write_exclusion_example :
    (writes (contended.last.pc 1) ≡ false) × (counted (contended.last.pc 1) ≡ false)
write_exclusion_example = write_exclusion (omega arith) contended.reach 0 1 (omega arith) refl

turn_taken_example : (j : ℕ) × (ticket (contended.last.pc j) ≡ some contended.last.mem.completion)
turn_taken_example = turn_taken (omega arith) contended.reach 1 1 refl

no_overtaking_example : ahead contended.last.mem 1 ≤ ahead contended.last.mem 1
no_overtaking_example =
    no_overtaking (omega arith) contended.reach (pick 0 wr_load (omega arith)) 1 1 refl refl
