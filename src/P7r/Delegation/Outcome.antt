-- ===== src/P7r/Delegation/Outcome.antt =====
-- p7r/p7r_uthread.c: what a delegation asks of the kernel, and what becomes of one that it refuses.
use servcraft.Prelude.{ℕ, ◌/◌, ◌%◌, Bool, true, false, List, [], ◌∷◌, ◌==◌}
use servcraft.P7r.Scheduler.{Scheduler}
use servcraft.P7r.Scheduler.Bus.{Bus}
use servcraft.P7r.Delegation.{
  Ctl, EpollEvents, EpollCall, modify, add, done, missing, refused, is_done,
}

-- The kernel watches the file after the calls.
abbrev pub watches : Ctl → Ctl → Bool
watches done added = true
watches missing added = is_done added
watches refused added = false

abbrev pub is_refused : Ctl → Bool
is_refused done = false
is_refused missing = false
is_refused refused = true

-- The two flags of a delegation for a file, as the kernel gets them.
abbrev pub asked : ℕ → EpollEvents
asked events = record { input = events % 2 == 1; output = events / 2 % 2 == 1; oneshot = true }

-- The change of the watched events, and the addition where the file is not known yet.
abbrev pub asks_kernel : Ctl → ℕ → EpollEvents → List EpollCall
asks_kernel done fd events = modify fd events ∷ []
asks_kernel missing fd events = modify fd events ∷ add fd events ∷ []
asks_kernel refused fd events = modify fd events ∷ []
