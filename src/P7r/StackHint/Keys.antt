-- ===== src/P7r/StackHint/Keys.antt =====
-- The callbacks that make a hint a key of the hash table: on the keys that the two init functions
-- make, comparison is equality, and the hash respects it.
use servcraft.Prelude.{
  some_eq, ℕ, ◌≡◌, ap, refl, true, Option, none, some, List, [], ◌∷◌, arith, ==_iff, ==_self,
}
use servcraft.P7r.StackHint.{
  HintKey, entry_hash, same_name, compare_names, compare_entrances, entry_matches,
}

pub same_name_self : (n : List ℕ) → same_name n n ≡ true
unfolding same_name
same_name_self [] = refl
same_name_self (c ∷ cs) = rw (==_self c, same_name_self cs)

pub same_name_eq : (n m : List ℕ) → same_name n m ≡ true → n ≡ m
unfolding same_name
same_name_eq [] [] h = refl
same_name_eq [] (d ∷ ds) h = cc
same_name_eq (c ∷ cs) [] h = cc
same_name_eq (c ∷ cs) (d ∷ ds) h = ground (arith, same_name_eq cs ds)

-- The key has an entrance or a name, and not both.
abbrev pub IsProper : Option ℕ → Option (List ℕ) → Type 0
IsProper (some e) none = Unit
IsProper none (some n) = Unit
IsProper _ _ = ⊥

matches_iff :
    (p q : Option ℕ) (n m : Option (List ℕ))
    → IsProper p n
    → IsProper q m
    → (compare_entrances p q (compare_names n m) ≡ true → (p ≡ q) × (n ≡ m))
      × ((p ≡ q) → (n ≡ m) → compare_entrances p q (compare_names n m) ≡ true)
unfolding compare_entrances compare_names
matches_iff none none none m h k = elim h [ ]
matches_iff none none (some n) none h k = elim k [ ]
matches_iff none (some q) none m h k = elim h [ ]
matches_iff none (some q) (some n) (some m) h k = elim k [ ]
matches_iff (some p) none none none h k = elim k [ ]
matches_iff (some p) none (some n) m h k = elim h [ ]
matches_iff (some p) (some q) none (some m) h k = elim k [ ]
matches_iff (some p) (some q) (some n) m h k = elim h [ ]
matches_iff (some p) (some q) none none h k =
    ((λ e. (ap some ((==_iff p q).0 e), refl)), λ e _. ground (arith, e))
matches_iff (some p) none none (some m) h k = ((λ e. cc), λ e _. cc)
matches_iff none (some q) (some n) none h k = ((λ e. cc), λ e _. cc)
matches_iff none none (some n) (some m) h k =
    ((λ e. (refl, ap some (same_name_eq n m e))), λ _ e. rw (some_eq e) (same_name_self m))

-- For keys with either an entrance or a name: two match just where they are the same, so that they
-- hash alike, and the hash reads no NULL.
pub entry_matches_iff :
    (a b : HintKey)
    → IsProper a.solid_entrance a.name
    → IsProper b.solid_entrance b.name
    → ((entry_matches a b ≡ true → a ≡ b) × (a ≡ b → entry_matches a b ≡ true))
      × ((h : ℕ) × (entry_hash a ≡ some h))
unfolding entry_matches entry_hash
entry_matches_iff a b pa pb =
    let (to, fro) = matches_iff a.solid_entrance b.solid_entrance a.name b.name pa pb in
    (
      (
        (λ e. let (p, n) = to e in λ i. record { solid_entrance = p i; name = n i }),
        λ e. fro (ap (λ k. k.solid_entrance) e) (ap (λ k. k.name) e),
      ),
      hashed a.solid_entrance a.name pa,
    )
  where
    hashed :
        (p : Option ℕ) (n : Option (List ℕ))
        → IsProper p n
        → (h : ℕ) × (entry_hash (record { solid_entrance = p; name = n }) ≡ some h)
    hashed (some p) none h = (_, refl)
    hashed none (some n) h = (_, refl)
    hashed none none h = elim h [ ]
    hashed (some p) (some n) h = elim h [ ]
