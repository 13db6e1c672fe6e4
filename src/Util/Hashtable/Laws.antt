-- ===== src/Util/Hashtable/Laws.antt =====
-- What insert, fetch, remove and delete do to the map that a table stands for.
use mathlib.Core.Option
use servcraft.Prelude.{
  ◌+◌, ◌%◌, ◌≡◌, ◌∙◌, ap, refl, sym, true, false, Option, some, List, ◌∷◌, arith, ◌==◌,
  if◌then◌else◌, Option-cases, inl, inr, Bool-cases, ==_self, ==_iff, get_elem?, is_some,
}
use servcraft.Util.Hashtable.{
  Callbacks, Hashkey, Hashslot, Hashtable, u64, write, find, unlink, hit, insert, fetch, remove,
}
use servcraft.Util.Hashtable.Chains.{
  IsKey, to_nat, count-unlink, find-eq-some, find_congr, matches_congr_right, find-unlink_ne,
}
use servcraft.Util.Hashtable.View.{
  IsValid, home, view, home_slot, slot_of-home, write-IsValid, view-write, view-slot, matching,
  matching-write, matching-slot,
}

module _ {ℓ} {K : Type ℓ} ⦃calls : Callbacks K⦄ where
  open calls use {matches, hashfunc}

  -- The map dic' answers o for the keys that match k, and as dic for all others.
  abbrev pub Answers : Hashtable K → K → Option (Hashkey K) → Hashtable K → Type ℓ
  Answers dic k o dic' = (q : K) → view dic' q ≡ (if matches q k then o else view dic q)

  abbrev pub new_key : K → Hashkey K
  new_key k = record { key = k; n_hits = 0 }

  module _ (laws : IsKey K) (dic : Hashtable K) (v : IsValid dic) (k : K) where
    abbrev slot : Hashslot K
    slot = (home_slot dic v k).0

    at : get_elem? dic.slots (home dic k) ≡ some slot
    at = (home_slot dic v k).1

    view-home : (q : K) → home dic q ≡ home dic k → view dic q ≡ find q slot.cluster
    view-home q e = view-slot dic v q slot (ap (get_elem? dic.slots) e ∙ at)

    home_matches : (q : K) → matches q k ≡ true → home dic q ≡ home dic k
    home_matches q m = ap (λ h. h % dic.cap) (laws.hash_matches q k m)

    -- Writing the home of k with a chain that sets the answer for k and no other.
    write-Answers :
        (s' : Hashslot K) (o : Option (Hashkey K))
        → ((q : K) → find q s'.cluster ≡ (if matches q k then o else find q slot.cluster))
        → Answers dic k o (write dic (home dic k) s')
    write-Answers s' o answers q =
        view-write dic v (home dic k) s' q ∙ elim (Bool-cases (matches q k)) [
          | inl m ↦ rw (home_matches q m, ==_self, m) (answers q ∙ rw m)
          | inr n ↦ elim (Bool-cases (home dic q == home dic k)) [
            | inl same ↦ rw (same, n) (answers q ∙ rw n (sym (view-home q ((==_iff _ _).0 same))))
            | inr other ↦ rw (other, n)
          ]
        ]

    -- insert in a valid table: the new key, with no hits, answers for all keys that match it, other
    -- answers stay, and the table stays valid.
    pub insert-Answers :
        (dic' : Hashtable K) × (insert dic k ≡ some dic')
        × IsValid dic'
        × Answers dic k (some (new_key k)) dic'
    unfolding insert find
    insert-Answers = (
      write dic (home dic k)
          (record { cluster = new_key k ∷ slot.cluster; size = u64 (slot.size + 1) }),
      rw (insert, slot_of-home dic v k slot at),
      write-IsValid dic v _ _,
      write-Answers _ _ (λ q. refl),
    )

    abbrev moved : Hashkey K → List (Hashkey K)
    moved x = hit x ∷ unlink k slot.cluster

    find-moved :
        (x : Hashkey K)
        → find k slot.cluster ≡ some x
        → (q : K) → find q (moved x) ≡ (if matches q k then some (hit x) else find q slot.cluster)
    unfolding find
    find-moved x e q =
        let same : matches q k ≡ matches q x.key =
          matches_congr_right laws q k x.key (find-eq-some k slot.cluster x e) in
        elim (Bool-cases (matches q k)) [
          | inl m ↦ rw (m, ← same, m)
          | inr n ↦ rw (n, ← same, n) (find-unlink_ne laws q k slot.cluster n)
        ]

    view_here : view dic k ≡ find k slot.cluster
    view_here = view-home k refl

    view_matches : (q : K) → matches q k ≡ true → view dic q ≡ view dic k
    view_matches q m =
        view-home q (home_matches q m) ∙ find_congr laws q k slot.cluster m ∙ sym view_here

    -- An answer that the table gives already is no change.
    same-Answers : (o : Option (Hashkey K)) → view dic k ≡ o → Answers dic k o dic
    same-Answers o e q = elim (Bool-cases (matches q k)) [
      | inl m ↦ rw m (view_matches q m ∙ e)
      | inr n ↦ rw n
    ]

    -- fetch from a valid table returns what the map holds, one hit up, and stores it so; no other
    -- answer changes.
    pub fetch-Answers :
        (dic' : Hashtable K) × (fetch dic k ≡ some (Option.map hit (view dic k), dic'))
        × IsValid dic'
        × Answers dic k (Option.map hit (view dic k)) dic'
    unfolding fetch
    fetch-Answers = elim (Option-cases (find k slot.cluster)) [
      | inl e ↦ (
        dic,
        rw (view_here, fetch, slot_of-home dic v k slot at, e),
        v,
        same-Answers _ (rw (view_here, e)),
      )
      | inr (x, e) ↦ (
        write dic (home dic k) (record slot { cluster = moved x }),
        rw (view_here, fetch, slot_of-home dic v k slot at, e),
        write-IsValid dic v _ _,
        write-Answers _ _ (λ q. rw (view_here, e) (find-moved x e q)),
      )
    ]

    write-other :
        (s' : Hashslot K) (q : K)
        → find q s'.cluster ≡ find q slot.cluster
        → view (write dic (home dic k) s') q ≡ view dic q
    write-other s' q e =
        view-write dic v (home dic k) s' q ∙ elim (Bool-cases (home dic q == home dic k)) [
          | inl same ↦ rw same (e ∙ sym (view-home q ((==_iff _ _).0 same)))
          | inr other ↦ rw other
        ]

    unlink-fewer :
        (x : Hashkey K)
        → find k slot.cluster ≡ some x
        → (q : K) → matches q k ≡ true
        → matching (write dic (home dic k) (record slot { cluster = unlink k slot.cluster })) q + 1
          ≡ matching dic q
    unlink-fewer x e q m =
        let same = home_matches q m in
        rw
          (
            matching-write dic v (home dic k) (record slot { cluster = unlink k slot.cluster }) q
                same,
            matching-slot dic v q slot (ap (get_elem? dic.slots) same ∙ at),
          )
          (rw (ap to_nat m) at (count-unlink laws q k slot.cluster x e))

    -- What remove leaves: the keys that do not match are found as before, and one key that
    -- matches, the one found, is gone from its slot.
    pub record Removed (dic' : Hashtable K) : Type ℓ where
      pub valid : IsValid dic'
      pub others : (q : K) → matches q k ≡ false → view dic' q ≡ view dic q
      pub fewer :
          (q : K)
          → matches q k ≡ true
          → matching dic' q + to_nat (is_some (view dic k)) ≡ matching dic q

    -- remove from a valid table returns what the map holds and takes that one key out: the number
    -- of keys that match drops by one where there was one, and other answers stay.
    pub remove-Removed :
        (dic' : Hashtable K) × (remove dic k ≡ some (view dic k, dic')) × Removed dic'
    unfolding remove
    remove-Removed = elim (Option-cases (find k slot.cluster)) [
      | inl e ↦ (
        dic,
        rw (view_here, remove, slot_of-home dic v k slot at, e),
        record { valid = v; others = λ q n. refl; fewer = λ q m. rw (view_here, e) (omega arith) },
      )
      | inr (x, e) ↦ (
        write dic (home dic k) (record slot { cluster = unlink k slot.cluster }),
        rw (view_here, remove, slot_of-home dic v k slot at, e),
        record {
          valid = write-IsValid dic v _ _;
          others = λ q n. write-other _ q (find-unlink_ne laws q k slot.cluster n);
          fewer = λ q m. rw (view_here, e) (unlink-fewer x e q m);
        },
      )
    ]
