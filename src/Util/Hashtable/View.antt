-- ===== src/Util/Hashtable/View.antt =====
-- A table as a map: what a lookup sees, and how a write to one slot changes that.
use servcraft.Prelude.{
  ℕ, ◌%◌, ◌<◌, ◌≡◌, ◌∙◌, sym, Option, none, some, arith, ◌==◌, if◌then◌else◌, length, get_elem?,
  length-set, get_elem?-set_self, get_elem?-set_ne, get_elem?-some, ==_iff, inl, inr, Bool-cases,
}
use servcraft.Util.Hashtable.Chains.{count}
use servcraft.Util.Hashtable.{Callbacks, Hashkey, Hashslot, Hashtable, slot_of, write, find}

-- The table has its slots, and at least one.
pub record IsValid {ℓ} {K : Type ℓ} (dic : Hashtable K) : Type ℓ where
  pub wide : length dic.slots ≡ dic.cap
  pub positive : 0 < dic.cap

module _ {ℓ} {K : Type ℓ} ⦃calls : Callbacks K⦄ where
  open calls use {hashfunc}

  abbrev pub home : Hashtable K → K → ℕ
  home dic q = hashfunc q % dic.cap

  -- The key that a lookup finds.
  unfoldable pub view : Hashtable K → K → Option (Hashkey K)
  view dic q = elim (get_elem? dic.slots (home dic q)) [ none ↦ none | some s ↦ find q s.cluster ]

  -- The number of keys that match, in the slot where they belong.
  unfoldable pub matching : Hashtable K → K → ℕ
  matching dic q = elim (get_elem? dic.slots (home dic q)) [ none ↦ 0 | some s ↦ count q s.cluster ]

  module _ (dic : Hashtable K) (v : IsValid dic) where
    pub home-lt : (q : K) → home dic q < length dic.slots
    home-lt q = rw v.wide (omega (arith, v.positive))

    pub home_slot : (q : K) → (s : Hashslot K) × (get_elem? dic.slots (home dic q) ≡ some s)
    home_slot q = get_elem?-some dic.slots (home dic q) (home-lt q)

    pub slot_of-home :
        (q : K) (s : Hashslot K)
        → get_elem? dic.slots (home dic q) ≡ some s
        → slot_of dic q ≡ some (home dic q, s)
    unfolding slot_of
    slot_of-home q s e = rw (slot_of, e)

    pub write-IsValid : (i : ℕ) (s : Hashslot K) → IsValid (write dic i s)
    write-IsValid i s = record { wide = length-set dic.slots i s ∙ v.wide; positive = v.positive }

    -- A write changes the lookups of the keys at home in the slot.
    pub view-write :
        (i : ℕ) (s : Hashslot K) (q : K)
        → view (write dic i s) q ≡ (if home dic q == i then find q s.cluster else view dic q)
    unfolding view
    view-write i s q = elim (Bool-cases (home dic q == i)) [
      | inl same ↦
          let e : i ≡ home dic q = sym ((==_iff (home dic q) i).0 same) in
          rw (same, view, e, get_elem?-set_self dic.slots (home dic q) s (home-lt q))
      | inr other ↦ rw (other, view, get_elem?-set_ne dic.slots i (home dic q) s (ground arith))
    ]

    pub view-slot :
        (q : K) (s : Hashslot K)
        → get_elem? dic.slots (home dic q) ≡ some s
        → view dic q ≡ find q s.cluster
    unfolding view
    view-slot q s e = rw (view, e)

    pub matching-slot :
        (q : K) (s : Hashslot K)
        → get_elem? dic.slots (home dic q) ≡ some s
        → matching dic q ≡ count q s.cluster
    unfolding matching
    matching-slot q s e = rw (matching, e)

    pub matching-write :
        (i : ℕ) (s : Hashslot K) (q : K)
        → home dic q ≡ i
        → matching (write dic i s) q ≡ count q s.cluster
    unfolding matching
    matching-write i s q e =
        rw (matching, ← e, get_elem?-set_self dic.slots (home dic q) s (home-lt q))
