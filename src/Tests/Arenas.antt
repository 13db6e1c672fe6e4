-- ===== src/Tests/Arenas.antt =====
-- An arena of five elements in two slots, and its calls by two threads.
use servcraft.Prelude.{ℕ, true, false, Option, none, some}
use servcraft.Util.Arena.{Arena, filled, init, get, release}
use servcraft.Util.Arena.Start.{Outcome, init-Outcome}

init-Outcome_example : Outcome 5 2 true true true (init 5 2 (λ x. false) true true true)
init-Outcome_example = init-Outcome 5 2 (λ x. false) true true true

abbrev begun : Arena
begun = filled 5 2 (λ x. false)

abbrev arena_of : Option (Arena × Option ℕ) → Arena
arena_of none = begun
arena_of (some r) = r.0

abbrev or_begun : Option Arena → Arena
or_begun none = begun
or_begun (some a) = a

-- A thread with the token 1 gets the element 1, and another one with the token 2 gives it back.
abbrev one : Arena
one = arena_of (get 1 none begun)

abbrev back : Arena
back = or_begun (release 2 1 one)
