-- ===== src/Util/Ring.antt =====
-- include/util_list.h: circular doubly linked lists threaded through their nodes.
-- A node is its address, and 0 is NULL; the store holds the two link fields of every node. The
-- macro list_entry is the identity here, since a node stands for the object that contains it.
pub mod Chain
pub mod Edits
pub mod Removal
pub mod Walks
use servcraft.Prelude.{
  ℕ, zero, suc, ◌≡◌, Bool, ◌&&◌, ◌||◌, Option, none, some, List, [], ◌∷◌, ◌==◌, if◌then◌else◌,
  update,
}

abbrev pub null : ℕ
null = 0

pub record Links : Type 0 where
  pub prev : ℕ → ℕ
  pub next : ℕ → ℕ

-- The assignments e->prev = p and e->next = n.
abbrev pub set_prev : ℕ → ℕ → Links → Links
set_prev e p l = record l { prev = update l.prev e p }

abbrev pub set_next : ℕ → ℕ → Links → Links
set_next e n l = record l { next = update l.next e n }

unfoldable pub init_list_head : ℕ → Links → Links
init_list_head h l = set_prev h h (set_next h h l)

unfoldable pub list_add__ : (e p n : ℕ) → Links → Links
list_add__ e p n l = set_next p e (set_prev e p (set_next e n (set_prev n e l)))

unfoldable pub list_add_head : (e h : ℕ) → Links → Links
unfolding list_add__
list_add_head e h l = list_add__ e h (l.next h) l

unfoldable pub list_add_tail : (e h : ℕ) → Links → Links
unfolding list_add__
list_add_tail e h l = list_add__ e (l.prev h) h l

unfoldable pub list_del__ : (p n : ℕ) → Links → Links
list_del__ p n l = set_next p n (set_prev n p l)

-- e->next = e->prev = NULL assigns prev first.
unfoldable pub list_del : ℕ → Links → Links
unfolding list_del__
list_del e l = set_next e null (set_prev e null (list_del__ (l.prev e) (l.next e) l))

unfoldable pub list_node_isolated : ℕ → Links → Bool
list_node_isolated e l = (l.next e == null) || (l.prev e == null)

-- e->prev = e->next = NULL assigns next first.
unfoldable pub list_node_isolate : ℕ → Links → Links
list_node_isolate e l = set_prev e null (set_next e null l)

unfoldable pub list_is_empty : ℕ → Links → Bool
list_is_empty h l = (l.next h == h) && (l.prev h == h)

-- list_foreach: the nodes that the loop visits, in order; none when the fuel runs out.
unfoldable pub list_foreach : ℕ → (pos head : ℕ) → Links → Option (List ℕ)
list_foreach zero pos head l = none
list_foreach (suc k) pos head l =
    let rest = list_foreach k (l.next pos) head l in
    if pos == head then some [] else elim rest [ none ↦ none | some xs ↦ some (pos ∷ xs) ]

-- list_foreach_remove whose body is list_del(t); list_add_tail(t, target): the next node is read
-- before the body runs, and a next node NULL ends the loop.
unfoldable pub move_all : ℕ → (pos head target : ℕ) → Links → Option Links
move_all zero pos head target l = none
move_all (suc k) pos head target l =
    let rest = move_all k (l.next pos) head target (list_add_tail pos target (list_del pos l)) in
    if pos == head then some l else if l.next pos == null then some l else rest
