-- ===== src/Util/Hashtable/Lifetime.antt =====
-- From new to destroy, and the two places where removal and the rest of the code disagree: the
-- size of a slot, and the argument of key_destroy.

use servcraft.Prelude.{
  ℕ, suc, ◌+◌, ◌-◌, ◌%◌, ◌^◌, ◌<◌, ◌≡◌, ap, refl, Bool, true, false, Option, none, some, List, [],
  ◌∷◌, ◌++◌, arith, if◌then◌else◌, length, get_elem?, replicate, set-set, length-replicate,
  get_elem?-replicate, get_elem?-set_self,
}
use servcraft.Util.Hashtable.{
  Callbacks, Hashkey, Hashslot, Hashtable, dic_block, slots_block, u64, empty_slot, new, drain_slot,
  drain_slots, destroy, write, find, unlink, insert, remove, delete,
}
use servcraft.Util.Hashtable.Chains.{IsKey}
use servcraft.Util.Hashtable.View.{
  IsValid, home, view, home_slot, home-lt, slot_of-home, write-IsValid,
}
use servcraft.Util.Hashtable.Laws.{new_key, remove-Removed}

-- The keys of the table, slot by slot and in chain order.
unfoldable pub keys {ℓ} : {K : Type ℓ} → List (Hashslot K) → List (Hashkey K)
keys [] = []
keys (s ∷ ss) = s.cluster ++ keys ss

module _ {ℓ} {K : Type ℓ} where
  drain_slot-keys : (c : List (Hashkey K)) (n : ℕ) → (drain_slot true c n).1 ≡ c
  unfolding drain_slot
  drain_slot-keys [] n = refl
  drain_slot-keys (e ∷ c) n = ap (λ t. e ∷ t) (drain_slot-keys c _)

  drain_slot-none : (c : List (Hashkey K)) (n : ℕ) → (drain_slot false c n).1 ≡ []
  unfolding drain_slot
  drain_slot-none [] n = refl
  drain_slot-none (e ∷ c) n = drain_slot-none c _

  drain_slots-keys :
      (b : Bool) (ss : List (Hashslot K)) → drain_slots b ss ≡ (if b then keys ss else [])
  unfolding drain_slots keys
  drain_slots-keys true [] = refl
  drain_slots-keys false [] = refl
  drain_slots-keys true (s ∷ ss) = rw (drain_slot-keys s.cluster s.size, drain_slots-keys true ss)
  drain_slots-keys false (s ∷ ss) = rw (drain_slot-none s.cluster s.size, drain_slots-keys false ss)

  -- destroy gives every key to key_destroy exactly once, if it is set, and frees both blocks.
  pub destroy-keys :
      (dic : Hashtable K)
      → ((destroy dic).0 ≡ (if dic.destroys then keys dic.slots else []))
        × ((destroy dic).1 ≡ slots_block ∷ dic_block ∷ [])
  unfolding destroy
  destroy-keys dic = (drain_slots-keys dic.destroys dic.slots, refl)

  -- Draining a slot whose size is the length of its chain brings the size to 0.
  pub drain_slot-size :
      (b : Bool) (c : List (Hashkey K)) → length c < 2 ^ 64 → (drain_slot b c (length c)).0 ≡ 0
  unfolding drain_slot
  drain_slot-size b [] h = refl
  drain_slot-size b (e ∷ c) h =
      let size : u64 (suc (length c) + 2 ^ 64 - 1) ≡ length c = omega arith in
      rw size (drain_slot-size b c (omega arith))

-- The blocks that were allocated for a new table.
abbrev taken : Bool → Bool → ℕ
taken false b = 0
taken true false = 1
taken true true = 2

abbrev owned {ℓ} : {K : Type ℓ} → Option (Hashtable K) → ℕ
owned none = 0
owned (some dic) = 2

-- On every outcome of the two allocations, what was allocated is owned or given back.
pub new_balance {ℓ} :
    (K : Type ℓ) (a b destroys : Bool) (n : ℕ)
    → taken a b ≡ length (new {K = K} a b destroys n).1 + owned (new {K = K} a b destroys n).0
unfolding new
new_balance K false b destroys n = refl
new_balance K true false destroys n = refl
new_balance K true true destroys n = refl

module _ {ℓ} {K : Type ℓ} ⦃calls : Callbacks K⦄ where
  -- With both allocations made and at least one slot, new gives a valid table without a key.
  pub new-IsValid :
      (destroys : Bool) (n : ℕ)
      → 0 < n
      → (dic : Hashtable K) × (new true true destroys n ≡ (some dic, []))
        × IsValid dic
        × ((q : K) → view dic q ≡ none)
  unfolding new view find
  new-IsValid destroys n h = (
    record { cap = n; destroys = destroys; slots = replicate n empty_slot },
    refl,
    record { wide = length-replicate n empty_slot; positive = h },
    λ q. rw (view, get_elem?-replicate n (calls.hashfunc q % n) empty_slot (omega arith)),
  )

  module _ (laws : IsKey K) (dic : Hashtable K) (v : IsValid dic) (k : K) where
    abbrev slot : Hashslot K
    slot = (home_slot dic v k).0

    at : get_elem? dic.slots (home dic k) ≡ some slot
    at = (home_slot dic v k).1

    abbrev full : Hashslot K
    full = record { cluster = new_key k ∷ slot.cluster; size = u64 (slot.size + 1) }

    abbrev pub drifted : Hashslot K
    drifted = record slot { size = u64 (slot.size + 1) }

    find_new : (c : List (Hashkey K)) → find k (new_key k ∷ c) ≡ some (new_key k)
    unfolding find
    find_new c = rw (laws.matches_refl k)

    unlink_new : (c : List (Hashkey K)) → unlink k (new_key k ∷ c) ≡ c
    unfolding unlink
    unlink_new c = rw (laws.matches_refl k)

    -- Inserting a key in a valid table and removing it gives back every chain, and leaves the size
    -- of the slot one up.
    pub insert-remove :
        (dic' : Hashtable K) × (insert dic k ≡ some dic')
        × (remove dic' k ≡ some (some (new_key k), write dic (home dic k) drifted))
    unfolding insert remove
    insert-remove = (
      write dic (home dic k) full,
      rw (insert, slot_of-home dic v k slot at),
      rw (
        remove,
        slot_of-home (write dic (home dic k) full) (write-IsValid dic v _ _) k full
            (get_elem?-set_self dic.slots (home dic k) full (home-lt dic v k)),
        find_new slot.cluster,
        unlink_new slot.cluster,
        set-set dic.slots (home dic k),
      ),
    )

    -- delete removes as remove does, and calls key_destroy, if it is set, with what the lookup
    -- found: for a key that is absent that is NULL.
    pub delete-destroys :
        (dic' : Hashtable K) × (remove dic k ≡ some (view dic k, dic'))
        × (delete dic k ≡ some (if dic.destroys then some (view dic k) else none, dic'))
    unfolding delete
    delete-destroys =
        let (dic', run, _) = remove-Removed laws dic v k in (dic', run, rw (delete, run))
