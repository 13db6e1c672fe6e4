-- ===== src/P7/Spin/Lock.antt =====
-- p7/spin.c: the lock word, in both versions of p7_spinlock_lock and in p7_spinlock_unlock. Threads
-- are interleaved one shared access at a time, sequentially consistent; the calls of
-- p7_coro_yield are counted apart.
pub mod Exclusion
pub mod Yields
use servcraft.Prelude.{
  ℕ, zero, suc, ◌+◌, ◌-◌, ◌%◌, ◌^◌, ◌<◌, ◌≡◌, ◌≢◌, Bool, true, false, ◌==◌, if◌then◌else◌, update,
}

-- Where a thread stands: outside, before the exchange of version 0.1, before the load of version
-- 0.2, after a load of 0, or between the return of lock and the store of unlock.
pub data Pc : Type 0 where
  outside : Pc
  exchanging_0_1 : Pc
  loading : Pc
  loaded : Pc
  holding : Pc

-- One shared access of one thread, by the word before and after it.
pub data Move (word : ℕ) : Pc → ℕ → Pc → Type 0 where
  call_0_1 : Move word outside word exchanging_0_1
  fail_0_1 : word ≢ 0 → Move word exchanging_0_1 1 exchanging_0_1
  lock_0_1 : word ≡ 0 → Move word exchanging_0_1 1 holding
  call_0_2 : Move word outside word loading
  load_taken : word ≢ 0 → Move word loading word loading
  load_free : word ≡ 0 → Move word loading word loaded
  fail_0_2 : word ≢ 0 → Move word loaded 1 loading
  lock_0_2 : word ≡ 0 → Move word loaded 1 holding
  unlock : Move word holding 0 outside

-- One lock and the places of all threads.
pub record System : Type 0 where
  pub word : ℕ
  pub pc : ℕ → Pc

abbrev pub moved : System → ℕ → ℕ → Pc → System
moved s i word place = record { word = word; pc = update s.pc i place }

-- One of n threads takes one access.
pub data Step (n : ℕ) : System → System → Type 0 where
  pick :
      {s : System} {word : ℕ} {place : Pc} (i : ℕ)
      → (access : Move s.word (s.pc i) word place) → i < n
      → Step n s (moved s i word place)

abbrev pub start : System
start = record { word = 0; pc = λ _. outside }

-- The states that any interleaving of n threads leads to.
pub data Reach (n : ℕ) : System → Type 0 where
  here : Reach n start
  later : {before after : System} → Step n before after → Reach n before → Reach n after

abbrev pub holds : Pc → Bool
holds holding = true
holds _ = false

-- How often version 0.1 yields, when so many exchanges fail before the one that succeeds. The
-- difference of spintime and spincount is a number of 32 bits.
unfoldable pub yields_0_1 : (spintime failures spincount : ℕ) → ℕ
yields_0_1 spintime zero spincount = 0
yields_0_1 spintime (suc failures) spincount =
    let next = (spincount + 1) % 2 ^ 32 in
    (if next == spintime then 1 else 0)
    + yields_0_1 spintime failures (if next == spintime then 0 else next)

-- How often version 0.2 yields, when so many rounds of its condition fail.
unfoldable pub yields_0_2 : (failures penalty : ℕ) → ℕ
yields_0_2 zero penalty = 0
yields_0_2 (suc failures) penalty =
    (if penalty == 0 then 0 else 1) + yields_0_2 failures ((1 + 2 ^ 32 - penalty) % 2 ^ 32)
