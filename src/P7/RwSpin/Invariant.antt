-- ===== src/P7/RwSpin/Invariant.antt =====
-- p7/rwspin.c: who holds which ticket, and what n_readers counts; kept by every shared access.
mod Moves
pub use Moves.{IsActive, ahead, Inv, Move-ahead}
use Moves.{Move-Inv}
use servcraft.Prelude.{ℕ, ◌<◌, ◌^◌, ◌≡◌, refl, Bool, true, false, Option, none, some, arith}
use servcraft.P7.Threads.{tally, tally_none}
use servcraft.P7.RwSpin.{
  Pc, idle, System, Step, pick, start, Reach, here, later, ticket, holds, counted,
}

start-Inv : (n : ℕ) → n < 2 ^ 32 → Inv n start.mem start.pc
start-Inv n few = record {
  few = few;
  fits = (omega arith, omega arith);
  handed = rw (tally_none holds n (λ _. idle) (λ _. refl)) refl;
  range = λ i t q. cc;
  unique = λ i j t q r. cc;
  covered = λ d q. absurd (omega (arith, tally_none holds n (λ _. idle) (λ _. refl)));
  fresh = λ _. tt;
  readers = rw (tally_none counted n (λ _. idle) (λ _. refl)) refl;
  beyond = λ i h. refl;
}

Step-Inv : {n : ℕ} {s t : System} → Step n s t → Inv n s.mem s.pc → Inv n t.mem t.pc
Step-Inv (pick i access lt) inv = Move-Inv inv i lt access

-- The invariant holds in every state that fewer than 2 ^ 32 threads can reach.
pub Reach-Inv : {n : ℕ} {s : System} → n < 2 ^ 32 → Reach n s → Inv n s.mem s.pc
Reach-Inv {n} few here = start-Inv n few
Reach-Inv few (later step r) = Step-Inv step (Reach-Inv few r)
