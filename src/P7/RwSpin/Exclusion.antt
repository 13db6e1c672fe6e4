-- ===== src/P7/RwSpin/Exclusion.antt =====
-- p7/rwspin.c: what the lock promises in every state that n threads reach, for n below 2 ^ 32.
use servcraft.Prelude.{ℕ, ◌<◌, ◌≤◌, ◌^◌, ◌≡◌, ◌≢◌, true, false, some, arith}
use servcraft.P7.Threads.{tally, tally_pos}
use servcraft.P7.RwSpin.{System, Step, pick, Reach, ticket, counted, writes}
use servcraft.P7.RwSpin.Invariant.{ahead, Inv, Reach-Inv, Move-ahead}

module _ {n : ℕ} {s : System} (few : n < 2 ^ 32) (r : Reach n s) where
  inv : Inv n s.mem s.pc
  inv = Reach-Inv few r

  stands : (i : ℕ) → counted (s.pc i) ≡ true → i < n
  stands i h = ground (arith, inv.beyond i)

  -- In every reachable state of fewer than 2 ^ 32 threads: while a thread is between the return of wrlock and the end of wrunlock, no other thread is
  -- there too, and no other thread is counted as a reader.
  pub write_exclusion :
      (i j : ℕ)
      → i ≢ j
      → writes (s.pc i) ≡ true
      → (writes (s.pc j) ≡ false) × (counted (s.pc j) ≡ false)
  write_exclusion i j apart w = (
    ground (arith, inv.fresh i, inv.fresh j, inv.unique i j s.mem.completion),
    ground (arith, inv.fresh i, inv.readers, stands j, tally_pos counted n s.pc j),
  )

  -- n_readers is at every moment the number of threads past their increment and before their
  -- decrement.
  pub readers_counted : s.mem.n_readers ≡ tally counted n s.pc
  readers_counted = inv.readers

  -- In every reachable state of fewer than 2 ^ 32 threads: while some thread holds a ticket, some thread holds the ticket being served.
  pub turn_taken :
      (i t : ℕ) → ticket (s.pc i) ≡ some t → (j : ℕ) × (ticket (s.pc j) ≡ some s.mem.completion)
  turn_taken i t h =
      let (j, held) = inv.covered 0 (ground (arith, inv.range i t)) in (j, ground (arith, inv.fits))

  -- First come, first served: from a reachable state of fewer than 2 ^ 32 threads, no access of any
  -- thread puts more tickets before a thread that keeps the one it holds.
  pub no_overtaking :
      {s' : System}
      → Step n s s'
      → (j t : ℕ) → ticket (s.pc j) ≡ some t
      → ticket (s'.pc j) ≡ some t
      → ahead s'.mem t ≤ ahead s.mem t
  no_overtaking (pick i access lt) = Move-ahead inv i lt access
