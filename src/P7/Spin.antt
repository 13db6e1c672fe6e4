-- ===== src/P7/Spin.antt =====
-- p7/spin.c and p7/spin.h: where the spinlocks of one carrier come from. A lock stands for its
-- address: reserved[i] is at i, and the root allocator gives the others, as a parameter. The lock
-- word itself is the subject of Lock.
pub mod Lock
pub mod Scan
pub mod Lives
use servcraft.Prelude.{
  ℕ, zero, suc, ◌+◌, ◌*◌, ◌/◌, ◌%◌, ◌^◌, ◌-◌, Bool, true, false, not, Option, none, some, List, [],
  ◌∷◌, ◌++◌, ◌==◌, ltb, if◌then◌else◌, update,
}

-- The values of is_free.
pub data Use : Type 0 where
  busy : Use
  free : Use
  temp : Use
  local : Use

-- struct p7_spinlock, without its link.
pub record Spinlock : Type 0 where
  pub lock : ℕ
  pub spintime : ℕ
  pub idx_reserved : ℕ
  pub is_free : Use
  pub from : ℕ

-- arena_info, the carrier that it belongs to, all locks by their addresses, and the addresses given
-- back to the root allocator.
pub record SpinArena : Type 0 where
  pub carrier_id : ℕ
  pub begin_offset : ℕ
  pub cap : ℕ
  pub used : ℕ
  pub next_avail : ℕ
  pub cap_cached : ℕ
  pub free_cached : ℕ
  pub cached : List ℕ
  pub locks : ℕ → Spinlock
  pub freed : List ℕ

abbrev pub is_free : Use → Bool
is_free busy = false
is_free free = true
is_free temp = false
is_free local = false

abbrev pub store : ℕ → Spinlock → SpinArena → SpinArena
store x l a = record a { locks = update a.locks x l }

-- The loop of p7_spinlock_preinit, over the first n reserved locks.
unfoldable pub reserve : ℕ → (ℕ → Spinlock) → ℕ → Spinlock
reserve zero locks = locks
reserve (suc n) locks =
    let before = reserve n locks in
    update before n (record (before n) { idx_reserved = n; is_free = free })

-- p7_spinlock_preinit, for the outcome of the allocation: the locks, and 0 or -1.
unfoldable pub preinit : ℕ → Bool → (ℕ → Spinlock) → Option (ℕ → Spinlock)
preinit n_reserved has_room locks = if has_room then some (reserve n_reserved locks) else none

-- p7_spinlock_tlinit on a carrier, for a number of carriers that is not 0.
unfoldable pub tlinit : ℕ → ℕ → ℕ → ℕ → (ℕ → Spinlock) → SpinArena
tlinit n_main_reserved ncarriers carrier_id cap_cached locks =
    let cap = n_main_reserved / ncarriers in
    record {
      carrier_id = carrier_id;
      begin_offset = cap * carrier_id % 2 ^ 32;
      cap = cap;
      used = 0;
      next_avail = cap * carrier_id % 2 ^ 32;
      cap_cached = cap_cached;
      free_cached = 0;
      cached = [];
      locks = locks;
      freed = [];
    }

-- The index after one, in the loop over the reserved locks.
abbrev pub after : ℕ → ℕ → ℕ
after cap idx = (idx + 1) % 2 ^ 32 % cap

-- A reserved lock that is found free.
unfoldable pub take : ℕ → SpinArena → SpinArena
take idx a = record a {
  used = (a.used + 1) % 2 ^ 32;
  next_avail = idx;
  locks = update a.locks idx (record (a.locks idx) { is_free = busy });
}

-- The loop over the reserved locks: the lock or null. With no fuel left, none.
unfoldable pub scan : ℕ → ℕ → SpinArena → Option (SpinArena × Option ℕ)
scan zero idx a = none
scan (suc fuel) idx a =
    let rest = scan fuel (after a.cap idx) a in
    if is_free (a.locks idx).is_free
    then some (take idx a, some idx)
    else if after a.cap idx == a.next_avail
    then some (a, none)
    else rest

-- The first of the cached locks. With none there, the head of the ring is taken for a lock.
unfoldable pub take_cached : List ℕ → SpinArena → Option (SpinArena × Option ℕ)
take_cached [] a = none
take_cached (x ∷ xs) a = some (
  store x (record (a.locks x) { lock = 0 })
      (record a { cached = xs; free_cached = a.free_cached - 1 }),
  some x,
)

-- A lock of the root allocator, or null.
unfoldable pub take_new : Option ℕ → SpinArena → SpinArena × Option ℕ
take_new none a = (a, none)
take_new (some x) a = (store x (record (a.locks x) { is_free = temp }) a, some x)

-- p7_spinlock_thunk_alloc.
unfoldable pub thunk_alloc : ℕ → Option ℕ → SpinArena → Option (SpinArena × Option ℕ)
thunk_alloc fuel heap a =
    if ltb a.used a.cap
    then scan fuel a.next_avail (record a { used = (a.used + 1) % 2 ^ 32 })
    else if a.free_cached == 0
    then some (take_new heap a)
    else take_cached a.cached a

-- What p7_spinlock_create writes to a lock that it was given.
unfoldable pub prepare : ℕ → SpinArena × Option ℕ → SpinArena × Option ℕ
prepare spintime (a, none) = (a, none)
prepare spintime (a, some x) =
    (store x (record (a.locks x) { lock = 0; spintime = spintime; from = a.carrier_id }) a, some x)

unfoldable pub prepared : ℕ → Option (SpinArena × Option ℕ) → Option (SpinArena × Option ℕ)
prepared spintime none = none
prepared spintime (some r) = some (prepare spintime r)

-- p7_spinlock_create.
unfoldable pub create : ℕ → Option ℕ → ℕ → SpinArena → Option (SpinArena × Option ℕ)
create fuel heap spintime a = prepared spintime (thunk_alloc fuel heap a)

-- p7_spinlock_init, on a lock of the caller's.
unfoldable pub init : ℕ → ℕ → SpinArena → SpinArena
init x spintime a =
    store x
      (record (a.locks x) { lock = 0; spintime = spintime; from = a.carrier_id; is_free = local }) a

-- A lock of the root allocator, to the cache or back.
unfoldable pub discard : ℕ → SpinArena → SpinArena
discard x a =
    if ltb a.free_cached a.cap_cached
    then store x (record (a.locks x) { lock = 0 })
        (record a { free_cached = a.free_cached + 1; cached = a.cached ++ x ∷ [] })
    else record a { freed = a.freed ++ x ∷ [] }

-- The switch of p7_spinlock_destroy.
unfoldable pub destroy_by : Use → ℕ → SpinArena → SpinArena
destroy_by busy x a =
    store x (record (a.locks x) { lock = 0; is_free = free })
      (record a { next_avail = (a.locks x).idx_reserved % 2 ^ 32 })
destroy_by temp x a = discard x a
destroy_by free x a = a
destroy_by local x a = a

-- p7_spinlock_destroy.
unfoldable pub destroy : ℕ → SpinArena → SpinArena
destroy x a = if (a.locks x).from == a.carrier_id then destroy_by (a.locks x).is_free x a else a
