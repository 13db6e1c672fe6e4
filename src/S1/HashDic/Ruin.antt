-- ===== src/S1/HashDic/Ruin.antt =====
-- What s1_dic_ruin gives back.

use servcraft.Prelude.{ℕ, ◌≡◌, refl, Bool, true, false, some, List, [], ◌∷◌, ◌++◌}
use servcraft.S1.HashDic.{
  Entry, Release, deallocate, key_dtor_call, val_dtor_call, ruin_item, ruin_slot, ruin_slots, ruin,
}

module _ {ℓ} {K V : Type ℓ} where
  -- The entries of the dictionary, slot by slot.
  unfoldable pub entries : List (List (Entry K V)) → List (Entry K V)
  entries [] = []
  entries (c ∷ cs) = c ++ entries cs

  -- What is due for every entry, where both destructors are set.
  unfoldable pub taken_apart : List (Entry K V) → List (Release K V)
  taken_apart [] = []
  taken_apart (e ∷ c) = key_dtor_call e.key ∷ val_dtor_call e.value ∷ deallocate e ∷ taken_apart c

  unfoldable pub freed : List (Entry K V) → List (Release K V)
  freed [] = []
  freed (e ∷ c) = deallocate e ∷ freed c

  taken_apart-append :
      (c d : List (Entry K V)) → taken_apart c ++ taken_apart d ≡ taken_apart (c ++ d)
  unfolding taken_apart
  taken_apart-append [] d = refl
  taken_apart-append (e ∷ c) d = rw (taken_apart-append c d)

  freed-append : (c d : List (Entry K V)) → freed c ++ freed d ≡ freed (c ++ d)
  unfolding freed
  freed-append [] d = refl
  freed-append (e ∷ c) d = rw (freed-append c d)

  ruin_slot-both : (c : List (Entry K V)) → ruin_slot true true c ≡ some (taken_apart c)
  unfolding ruin_slot ruin_item taken_apart
  ruin_slot-both [] = refl
  ruin_slot-both (e ∷ c) = rw (ruin_slot-both c)

  ruin_slot-freed : (b : Bool) (c : List (Entry K V)) → ruin_slot false b c ≡ some (freed c)
  unfolding ruin_slot ruin_item freed
  ruin_slot-freed b [] = refl
  ruin_slot-freed b (e ∷ c) = rw (ruin_slot-freed b c)

  ruin_slots-both :
      (cs : List (List (Entry K V))) → ruin_slots true true cs ≡ some (taken_apart (entries cs))
  unfolding ruin_slots entries taken_apart
  ruin_slots-both [] = refl
  ruin_slots-both (c ∷ cs) =
      rw (ruin_slots, ruin_slot-both c, ruin_slots-both cs, taken_apart-append c (entries cs))

  ruin_slots-freed :
      (b : Bool) (cs : List (List (Entry K V))) → ruin_slots false b cs ≡ some (freed (entries cs))
  unfolding ruin_slots entries freed
  ruin_slots-freed b [] = refl
  ruin_slots-freed b (c ∷ cs) =
      rw (ruin_slots, ruin_slot-freed b c, ruin_slots-freed b cs, freed-append c (entries cs))

  -- With both destructors set, every entry has its key and its value destroyed once, in order,
  -- and is then freed. With key_dtor unset, the entries are freed and no value is destroyed,
  -- whether val_dtor is set or not.
  pub ruin-entries :
      (size n : ℕ) (slots : List (List (Entry K V)))
      → (ruin (record { size = size; capacity = n; key_dtor = true; val_dtor = true; dic = slots })
          ≡ some (taken_apart (entries slots)))
        × ((b : Bool)
            → ruin
                (record { size = size; capacity = n; key_dtor = false; val_dtor = b; dic = slots })
              ≡ some (freed (entries slots)))
  unfolding ruin
  ruin-entries size n slots = (ruin_slots-both slots, λ b. ruin_slots-freed b slots)
