-- ===== src/P7/Spin/Lock/Exclusion.antt =====
-- p7/spin.c: one thread at a time between the return of lock and unlock, in either version.
use servcraft.Prelude.{
  ℕ, ◌+◌, ◌≤◌, ◌<◌, ◌≡◌, ◌≢◌, refl, true, false, arith, ==_of_ne, Bool-cases, inl, inr,
}
use servcraft.P7.Threads.{
  tally, tally-update, tally_pos, tally_none, tally_pair, tally_some, one_if,
}
use servcraft.P7.Spin.Lock.{
  Pc, outside, Move, System, Step, pick, Reach, here, later, holds, call_0_1, fail_0_1, lock_0_1,
  call_0_2, load_taken, load_free, fail_0_2, lock_0_2, unlock,
}

-- The word counts the threads that hold the lock, of which there is one at most.
record IsHeld (n : ℕ) (s : System) : Type 0 where
  counts : s.word ≡ tally holds n s.pc
  single : s.word ≤ 1
  beyond : (i : ℕ) → n ≤ i → holds (s.pc i) ≡ false

-- What one access does to the word, by whether the thread holds the lock.
Move-word :
    {w v : ℕ} {p q : Pc}
    → Move w p v q
    → w ≤ 1
    → (one_if (holds p) ≤ w)
    → (v + one_if (holds p) ≡ w + one_if (holds q)) × (v ≤ 1)
Move-word call_0_1 h b = omega arith
Move-word (fail_0_1 e) h b = ground arith
Move-word (lock_0_1 e) h b = ground arith
Move-word call_0_2 h b = omega arith
Move-word (load_taken e) h b = omega arith
Move-word (load_free e) h b = omega arith
Move-word (fail_0_2 e) h b = ground arith
Move-word (lock_0_2 e) h b = ground arith
Move-word unlock h b = ground arith

one-le-tally : (n : ℕ) (f : ℕ → Pc) (i : ℕ) → i < n → one_if (holds (f i)) ≤ tally holds n f
one-le-tally n f i h = elim (Bool-cases (holds (f i))) [
  | inl e ↦ rw e (omega (arith, tally_pos holds n f i h e))
  | inr e ↦ rw e (omega arith)
]

Step-IsHeld : {n : ℕ} {s t : System} → Step n s t → IsHeld n s → IsHeld n t
Step-IsHeld {n} (pick {s} {word} {place} i access lt) held =
    let m = Move-word access held.single (omega (arith, held.counts, one-le-tally n s.pc i lt)) in
    record {
      counts = omega (arith, m.0, held.counts, tally-update holds n s.pc i place lt);
      single = m.1;
      beyond = λ j h. rw (==_of_ne i j (λ e. omega arith)) (held.beyond j h);
    }

Reach-IsHeld : {n : ℕ} {s : System} → Reach n s → IsHeld n s
Reach-IsHeld {n} here = record {
  counts = rw (tally_none holds n (λ _. outside) (λ _. refl)) refl;
  single = omega arith;
  beyond = λ i h. refl;
}
Reach-IsHeld (later step r) = Step-IsHeld step (Reach-IsHeld r)

module _ {n : ℕ} {s : System} (r : Reach n s) where
  -- In every reachable state, with any number of threads in either version of lock: while a thread
  -- holds the lock no other one does, and the word is 1.
  pub lock_exclusion :
      (i j : ℕ) → i ≢ j → holds (s.pc i) ≡ true → (holds (s.pc j) ≡ false) × (s.word ≡ 1)
  lock_exclusion i j apart h =
      let held = Reach-IsHeld r in
      (
        ground (
          arith,
          held.beyond i,
          held.beyond j,
          held.counts,
          held.single,
          tally_pair holds n s.pc i j,
        ),
        ground (arith, held.beyond i, held.counts, held.single, tally_pos holds n s.pc i),
      )

  -- In every reachable state: a word other than 0 means that some thread holds the lock.
  pub word_held : s.word ≢ 0 → (i : ℕ) × (holds (s.pc i) ≡ true)
  word_held h = tally_some holds n s.pc (ground (arith, (Reach-IsHeld r).counts))
