-- ===== src/Util/Ring/Edits.antt =====
-- What init_list_head, list_add_head, list_add_tail and list_del do to rings.
use servcraft.Prelude.{
  ℕ, ◌≡◌, refl, ◌≢◌, true, false, List, [], ◌∷◌, ◌++◌, arith, has, is_nil, has-append, Distinct,
  append-Distinct,
}
use servcraft.Util.Ring.{Links, null, init_list_head, list_add_head, list_add_tail, list_is_empty}
use servcraft.Util.Ring.Chain.{
  IsRing, Chain_frame, Chain-append, has-last, has-first, Chain-first, Chain-last, Chain_retarget,
  Chain_reroot,
}

-- A fresh head is an empty ring.
pub init_list_head-IsRing : (h : ℕ) (l : Links) → h ≢ null → IsRing (init_list_head h l) h []
unfolding init_list_head
init_list_head-IsRing h l ne = record {
  chain = ground arith;
  distinct = (refl, tt);
  valid = ground arith;
}

-- list_is_empty tells whether the ring has no node.
pub list_is_empty-is_nil :
    (l : Links) (h : ℕ) (xs : List ℕ) → IsRing l h xs → list_is_empty h l ≡ is_nil xs
unfolding list_is_empty
list_is_empty-is_nil l h [] r = ground (arith, r.chain.0, r.chain.1)
list_is_empty-is_nil l h (x ∷ xs) r = ground (arith, r.chain.0, r.distinct.0)

-- The links of the nodes xs are the same in both stores.
abbrev pub Same : Links → Links → List ℕ → Type 0
Same l g xs = (a : ℕ) → has a xs ≡ true → (g.next a ≡ l.next a) × (g.prev a ≡ l.prev a)

pub IsRing_frame :
    (l g : Links) (t : ℕ) (ys : List ℕ) → IsRing l t ys → Same l g (t ∷ ys) → IsRing g t ys
IsRing_frame l g t ys r same = record {
  chain = Chain_frame l g t ys t (λ a m. (same a m).0) (λ a m. (same a m).1) r.chain;
  distinct = r.distinct;
  valid = r.valid;
}

-- Two lists with no common element.
abbrev pub Apart : List ℕ → List ℕ → Type 0
Apart xs ys = (a : ℕ) → has a xs ≡ true → has a ys ≡ false

module _ (l : Links) (h e : ℕ) (xs : List ℕ) (r : IsRing l h xs) where
  -- Only e and nodes of the ring are written.
  pub list_add_head_frame : (ys : List ℕ) → Apart ys (e ∷ h ∷ xs) → Same l (list_add_head e h l) ys
  unfolding list_add_head
  list_add_head_frame ys apart a m =
      ground (arith, apart a, Chain-first l h xs h r.chain, has-first xs h)

  pub list_add_tail_frame : (ys : List ℕ) → Apart ys (e ∷ h ∷ xs) → Same l (list_add_tail e h l) ys
  unfolding list_add_tail
  list_add_tail_frame ys apart a m =
      ground (arith, apart a, Chain-last l h xs h r.chain, has-last h xs)

  module _ (out : has e (h ∷ xs) ≡ false) (ok : e ≢ null) where
    -- list_add_head puts the node in front.
    pub list_add_head-IsRing : IsRing (list_add_head e h l) h (e ∷ xs)
    unfolding list_add_head
    list_add_head-IsRing = record {
      chain = (
        ground arith,
        ground (arith, Chain-first l h xs h r.chain, has-first xs h),
        Chain_reroot l (list_add_head e h l) h e xs h r.chain
            (ground (arith, Chain-first l h xs h r.chain))
            (ground (arith, Chain-first l h xs h r.chain, has-first xs h))
            (λ a m. ground (arith, r.distinct.0))
            (λ a m n. ground (arith, Chain-first l h xs h r.chain)) r.distinct,
      );
      distinct = ground (arith, r.distinct);
      valid = ground (arith, r.valid);
    }

    Distinct-snoc : Distinct (h ∷ xs ++ e ∷ [])
    Distinct-snoc = append-Distinct (h ∷ xs) (e ∷ []) r.distinct (refl, tt) λ a m. ground arith

    -- list_add_tail of a node that is not NULL and not in the ring puts it at the end.
    pub list_add_tail-IsRing : IsRing (list_add_tail e h l) h (xs ++ e ∷ [])
    unfolding list_add_tail
    list_add_tail-IsRing = record {
      chain =
          Chain-append _ h xs e [] h
            (Chain_retarget l (list_add_tail e h l) h xs h e r.chain r.distinct
              (λ a m. ground (arith, Chain-last l h xs h r.chain))
              (λ a m. ground (arith, r.distinct.0)) (ground (arith, Chain-last l h xs h r.chain)))
            (ground (arith, Chain-last l h xs h r.chain, has-last h xs));
      distinct = Distinct-snoc;
      valid = ground (arith, has-append null xs (e ∷ []), r.valid);
    }
