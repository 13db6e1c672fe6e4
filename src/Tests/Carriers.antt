-- ===== src/Tests/Carriers.antt =====
-- Two carriers over message buffers that are lists, and a delegation for a file.
use servcraft.Prelude.{ℕ, ◌≡◌, refl, false, none, some, List, [], ◌∷◌, ◌++◌, arith, append-nil}
use servcraft.Util.Arena.{Arena, filled}
use servcraft.Util.Arena.Lives.{IsSound, filled-Reach, here}
use servcraft.P7r.Scheduler.{Scheduler, Request, Uthread, running}
use servcraft.P7r.Scheduler.Steps.{first}
use servcraft.P7r.Futures.{Future}
use servcraft.P7r.Carriers.{BoxCalls, World, submit}
use servcraft.P7r.Carriers.Boxes.{IsBox}
use servcraft.P7r.Carriers.Order.{
  Event, posts, refreshes, posted, run, taken, AllQueued, taken-posted,
}
use servcraft.P7r.Carriers.Balance.{executes, executes-Balanced, plain}
use servcraft.P7r.Carriers.Submit.{Submitted, submit-Submitted}

-- A buffer that gives all its messages at once.
instance list_calls : BoxCalls (List Request)
list_calls = record { produce = λ q b. b ++ q ∷ []; consume = λ b. (some b, [], false) }

list_box : IsBox (List Request)
unfolding list_calls
list_box = record {
  pending = λ b. b;
  pending_produce = λ q b. refl;
  consume_pending = λ b. append-nil b;
}

abbrev uthread : Uthread
uthread = record {
  scheduler_index = 0;
  user_entrance = 1;
  user_argument = 2;
  status = running;
  future = none;
}

abbrev idle : ℕ → Scheduler
idle index = first index (11 ∷ 12 ∷ []) 0 (λ x. uthread) false 0 10

abbrev world : World (List Request)
world = record {
  schedulers = idle;
  boxes = λ dst src. [];
  notifications = λ dst. 0;
  n_carriers = 2;
  balance_index = 0;
}

abbrev request : ℕ → Request
request entrance = record {
  user_entrance = entrance;
  user_argument = 4;
  user_argument_dtor = none;
  future = none;
}

-- Carrier 0 posts to carrier 1, which takes it; then it posts once more.
abbrev events : List Event
events =
    posts 1 0 (request 3) ∷ posts 0 1 (request 5) ∷ refreshes 1 7 [] [] ∷ posts 1 0 (request 6) ∷ []

taken-posted_example :
    ([] ++ posted 1 0 events ≡ taken 1 0 events world ++ (run events world).boxes 1 0)
    × AllQueued events world
unfolding list_calls list_box
taken-posted_example = taken-posted list_box 1 0 events world

executes-Balanced_example :
    (v : World (List Request)) × (executes 2 request world ≡ some v)
    × (v.balance_index ≡ 2)
    × (v.boxes 0 0 ≡ [] ++ plain (request 1) ∷ [])
unfolding list_calls
executes-Balanced_example =
    executes-Balanced 2 request world (omega arith) (omega arith) (omega arith) 1 (omega arith)

abbrev arena : Arena
arena = filled 3 1 (λ x. false)

arena-IsSound : IsSound arena []
arena-IsSound = filled-Reach 3 1 (λ x. false) here

abbrev future : Future
future = record { result = 9; error_code = 9; posts = 9 }

submit-Submitted_example :
    Submitted 1 false
      (request 3)
      []
      (λ x. future)
      world
      (submit 1 none false (request 3) arena (λ x. future) world)
unfolding filled
submit-Submitted_example =
    submit-Submitted 1 none false (request 3) arena [] (λ x. future) world (omega arith)
      (omega arith) arena-IsSound tt
