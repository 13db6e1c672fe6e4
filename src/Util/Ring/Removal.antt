-- ===== src/Util/Ring/Removal.antt =====
-- What list_del does to the ring that holds the node.
use servcraft.Prelude.{
  ℕ, ◌≡◌, ◌≢◌, true, List, [], ◌∷◌, ◌++◌, arith, has, has-append, Distinct, Distinct-append,
  append-Distinct, append-nil,
}
use servcraft.Util.Ring.{Links, null, list_del, list_node_isolated}
use servcraft.Util.Ring.Chain.{
  Chain, IsRing, Chain_frame, Chain-append, Chain_split, last, first, has-last, has-first,
  Chain-first, Chain-last, Chain_retarget,
}
use servcraft.Util.Ring.Edits.{Same, Apart}

-- The chain behind the removed node is joined to the chain before it.
glue :
    (l g : Links) (h e : ℕ) (xs ys : List ℕ)
    → Chain g h xs (first ys h)
    → Chain l e ys h
    → ((a : ℕ) → has a ys ≡ true → g.next a ≡ l.next a)
    → ((a : ℕ) → has a (h ∷ ys) ≡ true → a ≢ first ys h → g.prev a ≡ l.prev a)
    → Distinct (h ∷ ys)
    → Chain g h (xs ++ ys) h
glue l g h e xs [] c b hn hp d = rw append-nil c
glue l g h e xs (y ∷ ys) c b hn hp d =
    Chain-append g h xs y ys h c
      (Chain_frame l g y ys h hn (λ a m. hp a (ground arith) (ground arith)) b.2)

module _ (l : Links) (h e : ℕ) (xs ys : List ℕ) (r : IsRing l h (xs ++ e ∷ ys)) where
  front : Chain l h xs e
  front = (Chain_split l h xs e ys h r.chain).0

  back : Chain l e ys h
  back = (Chain_split l h xs e ys h r.chain).1

  prev_lem : l.prev e ≡ last h xs
  prev_lem = Chain-last l h xs e front

  next_lem : l.next e ≡ first ys h
  next_lem = Chain-first l e ys h back

  parts : Distinct (h ∷ xs) × Distinct (e ∷ ys) × Apart (h ∷ xs) (e ∷ ys)
  parts = Distinct-append (h ∷ xs) (e ∷ ys) r.distinct

  -- Only e and its two neighbours are written.
  pub list_del_frame : (zs : List ℕ) → Apart zs (h ∷ xs ++ e ∷ ys) → Same l (list_del e l) zs
  unfolding list_del
  list_del_frame zs apart a m =
      ground (
        arith,
        apart a,
        prev_lem,
        next_lem,
        has-last h xs,
        has-first ys h,
        has-append a xs (e ∷ ys),
      )

  del_front : Chain (list_del e l) h xs (first ys h)
  unfolding list_del
  del_front =
      Chain_retarget l (list_del e l) h xs e (first ys h) front parts.0
        (λ a m. ground (arith, prev_lem, next_lem, parts.2 a m, parts.2 h))
        (λ a m. ground (arith, next_lem, parts.2 a, has-first ys h, parts.0))
        (ground (arith, prev_lem, next_lem, has-first ys h, parts.2 h, parts.1))

  -- The ring without the node has no node twice.
  del-Distinct : Distinct (h ∷ xs ++ ys)
  del-Distinct = append-Distinct (h ∷ xs) ys parts.0 parts.1.1 λ a m. ground (arith, parts.2 a)

  del_chain : Chain (list_del e l) h (xs ++ ys) h
  unfolding list_del
  del_chain =
      glue l (list_del e l) h e xs ys del_front back
        (λ a m. ground (arith, prev_lem, next_lem, parts.2 a, has-last h xs, parts.1.0))
        (λ a m n. ground (arith, prev_lem, next_lem, parts.2 a, parts.1.0))
        (ground (arith, parts.2 h), parts.1.1)

  -- list_del of a node of a ring leaves the ring of the other nodes, in order, and the node isolated.
  pub list_del-IsRing :
      IsRing (list_del e l) h (xs ++ ys) × (list_node_isolated e (list_del e l) ≡ true)
  unfolding list_del list_node_isolated
  list_del-IsRing = (
    record {
      chain = del_chain;
      distinct = del-Distinct;
      valid = ground (arith, has-append null xs (e ∷ ys), has-append null xs ys, r.valid);
    },
    ground arith,
  )
