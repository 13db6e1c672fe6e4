-- ===== src/Tests/Rings.antt =====
-- Rings of two nodes and pools of two objects.
use servcraft.Prelude.{◌≡◌, refl, some, [], ◌∷◌, arith}
use servcraft.Util.Ring.{Links, null, init_list_head, list_add_tail, move_all}
use servcraft.Util.Ring.Chain.{IsRing}
use servcraft.Util.Ring.Edits.{Apart, list_add_tail-IsRing}
use servcraft.Util.Ring.Walks.{move_all-IsRing}
use servcraft.Util.Pool.{ObjectPool}
use servcraft.Util.Pool.Laws.{IsPool}

abbrev blank : Links
blank = record { prev = λ _. null; next = λ _. null }

-- The ring of head 1 with nodes 4 and 5, and beside it the empty ring of head 2.
abbrev heads : Links
heads = init_list_head 2 (init_list_head 1 blank)

abbrev one_node : Links
one_node = list_add_tail 4 1 heads

abbrev two_nodes : Links
two_nodes = list_add_tail 5 1 one_node

heads-IsRing : IsRing heads 1 []
unfolding init_list_head
heads-IsRing = record { chain = (refl, refl); distinct = (refl, tt); valid = refl }

two_nodes-IsRing : IsRing two_nodes 1 (4 ∷ 5 ∷ [])
two_nodes-IsRing =
    list_add_tail-IsRing one_node 1 5 (4 ∷ [])
      (list_add_tail-IsRing heads 1 4 [] heads-IsRing refl (omega arith)) refl (omega arith)

target-IsRing : IsRing two_nodes 2 []
unfolding init_list_head list_add_tail
target-IsRing = record { chain = (refl, refl); distinct = (refl, tt); valid = refl }

target-Apart : Apart (2 ∷ []) (1 ∷ 4 ∷ 5 ∷ [])
target-Apart a m = ground arith

move_all-IsRing_example :
    (g : Links) × (move_all 3 (two_nodes.next 1) 1 2 two_nodes ≡ some g)
    × IsRing g 1 []
    × IsRing g 2 (4 ∷ 5 ∷ [])
move_all-IsRing_example =
    move_all-IsRing 3 two_nodes 1 2 (4 ∷ 5 ∷ []) [] two_nodes-IsRing target-IsRing target-Apart
      (omega arith)

-- A pool for one object.
abbrev small_pool : ObjectPool
small_pool = record { cap = 1; size = 0; pool = 1 }

small_pool-IsPool : IsPool small_pool heads []
small_pool-IsPool = record { ring = heads-IsRing; counted = refl; bounded = omega arith }

abbrev full_pool : ObjectPool
full_pool = record { cap = 1; size = 1; pool = 1 }

full_pool-IsPool : IsPool full_pool one_node (4 ∷ [])
full_pool-IsPool = record {
  ring = list_add_tail-IsRing heads 1 4 [] heads-IsRing refl (omega arith);
  counted = refl;
  bounded = omega arith;
}
