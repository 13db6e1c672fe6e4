-- ===== src/P7/RwSpin.antt =====
-- p7/rwspin.c: a fair reader-writer spinlock by tickets. Threads are interleaved one shared access
-- at a time, sequentially consistent. The back-off loops and p7_coro_yield touch no shared field:
-- they leave a thread where it stands.
pub mod Invariant
pub mod Exclusion
use servcraft.Prelude.{
  ℕ, ◌+◌, ◌-◌, ◌%◌, ◌^◌, ◌<◌, ◌≡◌, ◌≢◌, Option, none, some, Bool, true, false, update,
}

-- struct p7_rwspinlock; spintime is read by the back-off loops alone.
pub record RwSpinlock : Type 0 where
  pub request : ℕ
  pub n_readers : ℕ
  pub completion : ℕ

abbrev pub u32 : ℕ → ℕ
u32 n = n % 2 ^ 32

-- p7_rwspinlock_init.
abbrev pub init : RwSpinlock
init = record { request = 0; n_readers = 0; completion = 0 }

-- Where a thread stands. The places that hold a ticket carry req_id, and the two between the load
-- and the store of completion++ the value loaded.
pub data Pc : Type 0 where
  idle : Pc
  rd_wait : (req_id : ℕ) → Pc
  rd_entered : (req_id : ℕ) → Pc
  rd_counted : (req_id : ℕ) → Pc
  rd_store : (req_id c : ℕ) → Pc
  reading : Pc
  wr_wait : (req_id : ℕ) → Pc
  wr_drain : (req_id : ℕ) → Pc
  writing : (req_id : ℕ) → Pc
  wr_store : (req_id c : ℕ) → Pc

-- One shared access of one thread, in p7_rwspinlock_rdlock, _rdunlock, _wrlock and _wrunlock.
pub data Move (m : RwSpinlock) : Pc → RwSpinlock → Pc → Type 0 where
  rd_request : Move m idle (record m { request = u32 (m.request + 1) }) (rd_wait m.request)
  rd_spin : {t : ℕ} → m.completion ≢ t → Move m (rd_wait t) m (rd_wait t)
  rd_turn : {t : ℕ} → m.completion ≡ t → Move m (rd_wait t) m (rd_entered t)
  rd_add :
      {t : ℕ}
      → Move m (rd_entered t) (record m { n_readers = u32 (m.n_readers + 1) }) (rd_counted t)
  rd_load : {t : ℕ} → Move m (rd_counted t) m (rd_store t m.completion)
  rd_complete : {t c : ℕ} → Move m (rd_store t c) (record m { completion = u32 (c + 1) }) reading
  rd_unlock : Move m reading (record m { n_readers = u32 (m.n_readers + 2 ^ 32 - 1) }) idle
  wr_request : Move m idle (record m { request = u32 (m.request + 1) }) (wr_wait m.request)
  wr_spin : {t : ℕ} → m.completion ≢ t → Move m (wr_wait t) m (wr_wait t)
  wr_turn : {t : ℕ} → m.completion ≡ t → Move m (wr_wait t) m (wr_drain t)
  wr_readers : {t : ℕ} → m.n_readers ≢ 0 → Move m (wr_drain t) m (wr_drain t)
  wr_enter : {t : ℕ} → m.n_readers ≡ 0 → Move m (wr_drain t) m (writing t)
  wr_load : {t : ℕ} → Move m (writing t) m (wr_store t m.completion)
  wr_complete : {t c : ℕ} → Move m (wr_store t c) (record m { completion = u32 (c + 1) }) idle

-- One lock and the places of all threads.
pub record System : Type 0 where
  pub mem : RwSpinlock
  pub pc : ℕ → Pc

-- Thread i moves to a place and leaves the lock as m.
abbrev pub moved : System → ℕ → RwSpinlock → Pc → System
moved s i m place = record { mem = m; pc = update s.pc i place }

-- One of n threads takes one access.
pub data Step (n : ℕ) : System → System → Type 0 where
  pick :
      {s : System} {m : RwSpinlock} {place : Pc} (i : ℕ)
      → (access : Move s.mem (s.pc i) m place) → i < n
      → Step n s (moved s i m place)

abbrev pub start : System
start = record { mem = init; pc = λ _. idle }

-- The states that any interleaving of n threads leads to.
pub data Reach (n : ℕ) : System → Type 0 where
  here : Reach n start
  later : {before after : System} → Step n before after → Reach n before → Reach n after

-- The ticket that a thread holds, from the request until its completion is stored.
abbrev pub ticket : Pc → Option ℕ
ticket idle = none
ticket reading = none
ticket (rd_wait t) = some t
ticket (rd_entered t) = some t
ticket (rd_counted t) = some t
ticket (rd_store t c) = some t
ticket (wr_wait t) = some t
ticket (wr_drain t) = some t
ticket (writing t) = some t
ticket (wr_store t c) = some t

abbrev pub holds : Pc → Bool
holds idle = false
holds reading = false
holds _ = true

-- The readers that n_readers counts.
abbrev pub counted : Pc → Bool
counted (rd_counted t) = true
counted (rd_store t c) = true
counted reading = true
counted _ = false

-- Between the return of wrlock and the end of wrunlock.
abbrev pub writes : Pc → Bool
writes (writing t) = true
writes (wr_store t c) = true
writes _ = false
