-- ===== src/Util/Pool.antt =====
-- util/scraft_poolize.h: a bounded pool of recycled objects, kept on a ring of links.
pub mod Laws
use servcraft.Prelude.{ℕ, ◌+◌, ◌-◌, Bool, Option, none, some, ◌==◌, ltb, if◌then◌else◌}
use servcraft.Util.Ring.{Links, init_list_head, list_add_tail, list_del}

-- struct scraft_object_pool: its list head is the address `pool`.
pub record ObjectPool : Type 0 where
  pub cap : ℕ
  pub size : ℕ
  pub pool : ℕ

-- POOL_PUT_SUCCESS and POOL_PUT_FAIL_FULL.
pub data PutStatus : Type 0 where
  success : PutStatus
  fail_full : PutStatus

-- The pool, the links of all nodes, and what the call returns.
unfoldable pub put : ObjectPool → ℕ → Links → ObjectPool × Links × PutStatus
put p elt l =
    if ltb p.size p.cap
    then (record p { size = p.size + 1 }, list_add_tail elt p.pool l, success)
    else (p, l, fail_full)

unfoldable pub get : ObjectPool → Links → ObjectPool × Links × Option ℕ
get p l =
    if p.size == 0
    then (p, l, none)
    else (record p { size = p.size - 1 }, list_del (l.next p.pool) l, some (l.next p.pool))

unfoldable pub init : (pool cap : ℕ) → Links → ObjectPool × Links
init pool cap l = (record { cap = cap; size = 0; pool = pool }, init_list_head pool l)
