-- ===== src/Util/Ring/Walks.antt =====
-- The loops over a ring: list_foreach visits its nodes in order, and draining moves them all.
use servcraft.Prelude.{
  ap, sym, ◌∙◌, ==_of_ne, ℕ, zero, suc, ◌<◌, ◌≡◌, ◌≢◌, false, some, List, [], ◌∷◌, ◌++◌, arith, has,
  length, has-append, append_assoc, append-nil,
}
use servcraft.Util.Ring.{Links, null, list_del, list_add_tail, list_foreach, move_all}
use servcraft.Util.Ring.Chain.{Chain, IsRing, Chain-first, has-first}
use servcraft.Util.Ring.Edits.{Apart, IsRing_frame, list_add_tail-IsRing, list_add_tail_frame}
use servcraft.Util.Ring.Removal.{list_del-IsRing, list_del_frame}

foreach-Chain :
    (k : ℕ) (l : Links) (p : ℕ) (xs : List ℕ) (h : ℕ)
    → Chain l p xs h
    → has h xs ≡ false
    → length xs < k
    → list_foreach k (l.next p) h l ≡ some xs
unfolding list_foreach
foreach-Chain zero l p xs h c out fuel = absurd (omega arith)
foreach-Chain (suc k) l p [] h c out fuel = ground (arith, c.0)
foreach-Chain (suc k) l p (x ∷ xs) h c out fuel = ground (arith, c.0, foreach-Chain k l x xs h c.2)

-- With fuel above the length of the ring, the loop ends and visits exactly its nodes, in order.
pub list_foreach-IsRing :
    (k : ℕ) (l : Links) (h : ℕ) (xs : List ℕ)
    → IsRing l h xs
    → length xs < k
    → list_foreach k (l.next h) h l ≡ some xs
list_foreach-IsRing k l h xs r fuel = foreach-Chain k l h xs h r.chain r.distinct.0 fuel

-- One node moves from the front of one ring to the end of another.
module _ (l : Links) (h t x : ℕ) (xs ys : List ℕ) (r : IsRing l h (x ∷ xs)) (s : IsRing l t ys)
    (apart : Apart (t ∷ ys) (h ∷ x ∷ xs)) where
  abbrev step : Links
  step = list_add_tail x t (list_del x l)

  s' : IsRing (list_del x l) t ys
  s' = IsRing_frame l (list_del x l) t ys s (list_del_frame l h x [] xs r (t ∷ ys) apart)

  out : has x (t ∷ ys) ≡ false
  out = ground (arith, apart x)

  step_target : IsRing step t (ys ++ x ∷ [])
  step_target = list_add_tail-IsRing (list_del x l) t x ys s' out (ground (arith, r.valid))

  step_source : IsRing step h xs
  step_source = IsRing_frame (list_del x l) step h xs (list_del-IsRing l h x [] xs r).0 (
      list_add_tail_frame (list_del x l) t x ys s' (h ∷ xs)
        (λ a m. ground (arith, apart a, r.distinct)))

  step_next : l.next x ≡ step.next h
  step_next = Chain-first l x xs h r.chain.2 ∙ sym (Chain-first step h xs h step_source.chain)

  step-Apart : Apart (t ∷ ys ++ x ∷ []) (h ∷ xs)
  step-Apart a m = ground (arith, apart a, has-append a ys (x ∷ []), r.distinct)

move_all_step :
    (k : ℕ) (l : Links) (p q h t : ℕ)
    → p ≢ h
    → l.next p ≡ q
    → q ≢ null
    → move_all (suc k) p h t l ≡ move_all k q h t (list_add_tail p t (list_del p l))
unfolding move_all
move_all_step k l p q h t ne e on = rw (==_of_ne p h ne, e, ==_of_ne q null on)

next-valid : (l : Links) (h : ℕ) (xs : List ℕ) → IsRing l h xs → l.next h ≢ null
next-valid l h xs r = ground (arith, Chain-first l h xs h r.chain, has-first xs h, r.valid)

-- With fuel above the length of the ring h, draining it into a ring t apart from it ends, leaves h
-- empty and appends its nodes to t in order.
pub move_all-IsRing :
    (k : ℕ) (l : Links) (h t : ℕ) (xs ys : List ℕ)
    → IsRing l h xs
    → IsRing l t ys
    → Apart (t ∷ ys) (h ∷ xs)
    → length xs < k
    → (g : Links) × (move_all k (l.next h) h t l ≡ some g) × IsRing g h [] × IsRing g t (ys ++ xs)
unfolding move_all
move_all-IsRing zero l h t xs ys r s apart fuel = absurd (omega arith)
move_all-IsRing (suc k) l h t [] ys r s apart fuel =
    (l, ground (arith, r.chain.0), r, rw append-nil s)
move_all-IsRing (suc k) l h t (x ∷ xs) ys r s apart fuel =
    let (g, run, hr, tr) =
      move_all-IsRing k (step l h t x xs ys r s apart) h t xs (ys ++ x ∷ [])
        (step_source l h t x xs ys r s apart) (step_target l h t x xs ys r s apart)
        (step-Apart l h t x xs ys r s apart) (omega arith) in
    (
      g,
      ap (λ p. move_all (suc k) p h t l) r.chain.0
          ∙ move_all_step k l x _ h t (ground (arith, r.distinct))
              (step_next l h t x xs ys r s apart)
              (next-valid _ h xs (step_source l h t x xs ys r s apart))
          ∙ run,
      hr,
      rw (append_assoc ys (x ∷ []) xs) at tr,
    )
