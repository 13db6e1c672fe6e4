-- ===== src/S1/HashDic/Laws.antt =====
-- The dictionary as a map in which the first of the matching entries answers.
use servcraft.Prelude.{
  some_eq, ℕ, zero, suc, ◌+◌, ◌-◌, ◌%◌, ◌^◌, ◌<◌, ◌≡◌, ◌∙◌, ap, refl, sym, true, false, Option,
  none, some, List, [], ◌∷◌, ◌++◌, arith, ◌==◌, if◌then◌else◌, length, length-append, get_elem?,
  set, length-set, get_elem?-set_self, get_elem?-set_ne, get_elem?-some, ==_iff, inl, inr,
  Bool-cases, Option-cases,
}
use servcraft.S1.HashDic.{
  u32, Entry, Callbacks, Dic, Status, success, failure, Release, drop_item, slot_of, write, find,
  unlink, insert_at, insert, delete, fetch,
}

-- What the dictionary asks of its callbacks: keys that are equal have the same hash, and equality
-- can be continued.
pub record IsKey {ℓ} (K : Type ℓ) ⦃calls : Callbacks K⦄ : Type ℓ where
  pub hasher_equal : (a b : K) → calls.equal_to a b ≡ true → calls.hasher a ≡ calls.hasher b
  pub equal_symm : (a b : K) → calls.equal_to a b ≡ calls.equal_to b a
  pub equal_trans :
      (a b c : K)
      → calls.equal_to a b ≡ true
      → calls.equal_to b c ≡ true
      → calls.equal_to a c ≡ true

-- The number of entries.
unfoldable pub n_entries {ℓ} : {K V : Type ℓ} → List (List (Entry K V)) → ℕ
n_entries [] = 0
n_entries (c ∷ cs) = length c + n_entries cs

pub record IsValid {ℓ} {K V : Type ℓ} (d : Dic K V) : Type ℓ where
  pub wide : length d.dic ≡ d.capacity
  pub positive : 0 < d.capacity
  pub counted : d.size ≡ u32 (n_entries d.dic)

module _ {ℓ} {K V : Type ℓ} where
  n_entries-set :
      (cs : List (List (Entry K V))) (i : ℕ) (c c' : List (Entry K V))
      → get_elem? cs i ≡ some c
      → n_entries (set cs i c') + length c ≡ n_entries cs + length c'
  unfolding n_entries
  n_entries-set [] i c c' e = cc
  n_entries-set (x ∷ cs) zero c c' e = omega (arith, ap length (some_eq e))
  n_entries-set (x ∷ cs) (suc i) c c' e = omega (arith, n_entries-set cs i c c' e)

module _ {ℓ} {K V : Type ℓ} ⦃calls : Callbacks K⦄ where
  open calls use {hasher, equal_to}

  abbrev pub home : Dic K V → K → ℕ
  home d q = hasher q % d.capacity

  -- The entry that answers for a key.
  unfoldable pub view : Dic K V → K → Option (Entry K V)
  view d q = elim (get_elem? d.dic (home d q)) [ none ↦ none | some c ↦ find q c ]

  -- An answer, or else another.
  abbrev pub or_else : Option (Entry K V) → Option (Entry K V) → Option (Entry K V)
  or_else (some e) o = some e
  or_else none o = o

  find-snoc :
      (q : K) (c : List (Entry K V)) (e : Entry K V)
      → find q (c ++ e ∷ []) ≡ or_else (find q c) (if equal_to q e.key then some e else none)
  unfolding find
  find-snoc q [] e = refl
  find-snoc q (x ∷ c) e = elim (Bool-cases (equal_to q x.key)) [
    | inl m ↦ rw m
    | inr n ↦ rw n (find-snoc q c e)
  ]

  length-unlink :
      (k : K) (c : List (Entry K V)) (e : Entry K V)
      → find k c ≡ some e
      → length (unlink k c) + 1 ≡ length c
  unfolding find unlink
  length-unlink k [] e h = cc
  length-unlink k (x ∷ c) e h = ground (arith, length-unlink k c e)

  module _ (laws : IsKey K) (d : Dic K V) (v : IsValid d) (k : K) where
    find-unlink_ne :
        (q : K) (c : List (Entry K V)) → equal_to q k ≡ false → find q (unlink k c) ≡ find q c
    unfolding find unlink
    find-unlink_ne q [] h = refl
    find-unlink_ne q (x ∷ c) h =
        ground (arith, find-unlink_ne q c, laws.equal_symm k x.key, laws.equal_trans q x.key k)

    home-lt : (q : K) → home d q < length d.dic
    home-lt q = rw v.wide (omega (arith, v.positive))

    abbrev slot : List (Entry K V)
    slot = (get_elem?-some d.dic (home d k) (home-lt k)).0

    at : get_elem? d.dic (home d k) ≡ some slot
    at = (get_elem?-some d.dic (home d k) (home-lt k)).1

    slot_of-home : slot_of d (hasher k) ≡ some (home d k, slot)
    unfolding slot_of
    slot_of-home = rw (slot_of, at)

    view-home : (q : K) → home d q ≡ home d k → view d q ≡ find q slot
    unfolding view
    view-home q e = rw (view, ap (get_elem? d.dic) e, at)

    home_equal : (q : K) → equal_to q k ≡ true → home d q ≡ home d k
    home_equal q m = ap (λ h. h % d.capacity) (laws.hasher_equal q k m)

    -- A write to the slot of k changes the answers of the keys that are at home there.
    view-write :
        (c : List (Entry K V)) (n : ℕ) (q : K)
        → view (write d (home d k) c n) q ≡ (if home d q == home d k then find q c else view d q)
    unfolding view
    view-write c n q = elim (Bool-cases (home d q == home d k)) [
      | inl same ↦
          let e : home d k ≡ home d q = sym ((==_iff (home d q) (home d k)).0 same) in
          rw (same, view, e, get_elem?-set_self d.dic (home d q) c (home-lt q))
      | inr other ↦ rw (other, view, get_elem?-set_ne d.dic (home d k) (home d q) c (ground arith))
    ]

    write-IsValid :
        (c : List (Entry K V)) (n : ℕ)
        → n ≡ u32 (n_entries (set d.dic (home d k) c))
        → IsValid (write d (home d k) c n)
    write-IsValid c n e = record {
      wide = length-set d.dic (home d k) c ∙ v.wide;
      positive = v.positive;
      counted = e;
    }

    module _ (value : Option V) where
      abbrev pub added : Entry K V
      added = record { orig_hashval = hasher k; key = k; value = value }

      -- insert in a valid dictionary succeeds where the entry can be allocated. The new entry answers for the keys that
      -- had no answer, and no other answer changes; without the entry NULL is followed.
      pub insert-view :
          (d' : Dic K V) × (insert d true k value ≡ some (success, d'))
          × IsValid d'
          × ((q : K) → view d' q ≡ or_else (view d q) (if equal_to q k then some added else none))
          × (insert d false k value ≡ none)
      unfolding insert insert_at
      insert-view =
          let c = slot ++ added ∷ [] in
          (
            write d (home d k) c (u32 (d.size + 1)),
            rw (insert_at, slot_of-home),
            write-IsValid c (u32 (d.size + 1)) (
                omega (
                  arith,
                  v.counted,
                  n_entries-set d.dic (home d k) slot c at,
                  length-append slot (added ∷ []),
                )),
            (λ q. view-write c _ q ∙ elim (Bool-cases (home d q == home d k)) [
              | inl same ↦ rw (same, view-home q ((==_iff _ _).0 same)) (find-snoc q slot added)
              | inr other ↦ rw (other, apart q other) (kept (view d q))
            ]),
            rw (insert_at, slot_of-home),
          )
        where
          apart : (q : K) → (home d q == home d k) ≡ false → equal_to q k ≡ false
          apart q other = elim (Bool-cases (equal_to q k)) [
            | inl m ↦ absurd (cc (other, (==_iff _ _).1 (home_equal q m)))
            | inr n ↦ n
          ]

          kept : (o : Option (Entry K V)) → o ≡ or_else o none
          kept none = refl
          kept (some e) = refl

    -- fetch gives the value of the entry that answers, and NULL where none does.
    pub fetch-view : fetch d k ≡ some (elim (view d k) [ none ↦ none | some e ↦ e.value ])
    unfolding fetch
    fetch-view = elim (Option-cases (find k slot)) [
      | inl e ↦ rw (fetch, slot_of-home, e, view-home k refl, e)
      | inr (x, e) ↦ rw (fetch, slot_of-home, e, view-home k refl, e)
    ]

    -- The outcome of a deletion, by the entry that answered.
    abbrev pub Deleted :
        Option (Entry K V) → Option (Status × List (Release K V) × Dic K V) → Type ℓ
    Deleted none r = r ≡ some (failure, [], d)
    Deleted (some e) r =
        (d' : Dic K V) × (r ≡ some (success, drop_item d.key_dtor d.val_dtor e, d'))
        × IsValid d'
        × (n_entries d'.dic + 1 ≡ n_entries d.dic)
        × ((q : K) → equal_to q k ≡ false → view d' q ≡ view d q)

    -- delete from a valid dictionary takes out the entry that answers, and one entry only: the answers for other keys
    -- stay. A key without an answer is refused, and nothing changes.
    pub delete-Deleted : Deleted (view d k) (delete d k)
    unfolding delete
    delete-Deleted = elim (Option-cases (find k slot)) [
      | inl e ↦ rw (view-home k refl, e) (rw (delete, slot_of-home, e))
      | inr (x, e) ↦
          let fewer : n_entries (set d.dic (home d k) (unlink k slot)) + 1 ≡ n_entries d.dic =
            omega (
              arith,
              n_entries-set d.dic (home d k) slot (unlink k slot) at,
              length-unlink k slot x e,
            ) in
          rw (view-home k refl, e)
            (
              write d (home d k) (unlink k slot) (u32 (d.size + 2 ^ 32 - 1)),
              rw (delete, slot_of-home, e),
              write-IsValid (unlink k slot) _ (omega (arith, v.counted, fewer)),
              fewer,
              λ q n. view-write (unlink k slot) _ q ∙ elim (Bool-cases (home d q == home d k)) [
                | inl same ↦ rw (same, view-home q ((==_iff _ _).0 same)) (find-unlink_ne q slot n)
                | inr other ↦ rw other
              ],
            )
    ]
