-- ===== src/S1/HashDic/Single.antt =====
-- s1/s1_hashdic.c: a dictionary that never has two entries for one key, as s1_dic_insert leaves it
-- where a lookup has found none before.
use mathlib.Core.Path.{subst}
use servcraft.Prelude.{
  ◌⊎◌, ℕ, zero, suc, ◌+◌, ◌-◌, ◌^◌, ◌≤◌, ◌≡◌, ◌∙◌, refl, sym, true, Option, none, some, List, [],
  ◌∷◌, ◌++◌, arith, if◌then◌else◌, get_elem?, set, inl, inr, Bool-cases, Option-cases, some_eq,
}
use servcraft.S1.HashDic.{
  u32, Entry, Callbacks, Dic, Status, Release, slot_of, find, unlink, insert_at, insert, delete,
}
use servcraft.S1.HashDic.Laws.{IsKey, view, home}

module _ {ℓ} {K V : Type ℓ} ⦃calls : Callbacks K⦄ where
  open calls use {hasher, equal_to}

  -- The entries of a slot that match a key.
  unfoldable pub n_matching : K → List (Entry K V) → ℕ
  n_matching k [] = 0
  n_matching k (e ∷ c) = (if equal_to k e.key then 1 else 0) + n_matching k c

  pub n_matching-snoc :
      (k : K) (c : List (Entry K V)) (e : Entry K V)
      → n_matching k (c ++ e ∷ []) ≡ n_matching k c + (if equal_to k e.key then 1 else 0)
  unfolding n_matching
  n_matching-snoc k [] e = ground arith
  n_matching-snoc k (x ∷ c) e = omega (arith, n_matching-snoc k c e)

  n_matching-unlink : (k q : K) (c : List (Entry K V)) → n_matching k (unlink q c) ≤ n_matching k c
  unfolding n_matching unlink
  n_matching-unlink k q [] = ground arith
  n_matching-unlink k q (x ∷ c) = ground (arith, n_matching-unlink k q c)

  n_matching-find_none : (k : K) (c : List (Entry K V)) → find k c ≡ none → n_matching k c ≡ 0
  unfolding n_matching find
  n_matching-find_none k [] h = refl
  n_matching-find_none k (x ∷ c) h = ground (arith, n_matching-find_none k c, h)

  find-n_matching : (k : K) (c : List (Entry K V)) → n_matching k c ≡ 0 → find k c ≡ none
  unfolding n_matching find
  find-n_matching k [] h = refl
  find-n_matching k (x ∷ c) h = ground (arith, find-n_matching k c, h)

  n_matching-unlink_self :
      (k : K) (c : List (Entry K V)) → n_matching k c ≤ 1 → n_matching k (unlink k c) ≡ 0
  unfolding n_matching unlink
  n_matching-unlink_self k [] h = refl
  n_matching-unlink_self k (x ∷ c) h = ground (arith, n_matching-unlink_self k c, h)

  n_matching-same :
      (laws : IsKey K) (q k : K)
      → equal_to q k ≡ true
      → (c : List (Entry K V)) → n_matching q c ≡ n_matching k c
  unfolding n_matching
  n_matching-same laws q k m [] = refl
  n_matching-same laws q k m (x ∷ c) =
      let back : equal_to k q ≡ true = laws.equal_symm k q ∙ m in
      elim (Bool-cases (equal_to k x.key)) [
        | inl t ↦ rw (t, laws.equal_trans q k x.key m t, n_matching-same laws q k m c) refl
        | inr f ↦ elim (Bool-cases (equal_to q x.key)) [
          | inl t ↦ absurd (cc (f, laws.equal_trans k q x.key back t))
          | inr g ↦ rw (f, g, n_matching-same laws q k m c) refl
        ]
      ]

  -- Each key has one entry at most, in any slot.
  abbrev pub IsSingle : Dic K V → Type ℓ
  IsSingle d =
      (i : ℕ) (c : List (Entry K V)) → get_elem? d.dic i ≡ some c → (k : K) → n_matching k c ≤ 1

  get_elem?-set_cases :
      (cs : List (List (Entry K V))) (i j : ℕ) (c x : List (Entry K V))
      → get_elem? (set cs i c) j ≡ some x
      → (c ≡ x) ⊎ (get_elem? cs j ≡ some x)
  get_elem?-set_cases [] i j c x h = inr h
  get_elem?-set_cases (y ∷ cs) zero zero c x h = inl (some_eq h)
  get_elem?-set_cases (y ∷ cs) zero (suc j) c x h = inr h
  get_elem?-set_cases (y ∷ cs) (suc i) zero c x h = inr h
  get_elem?-set_cases (y ∷ cs) (suc i) (suc j) c x h = get_elem?-set_cases cs i j c x h

  get_elem?-set_same :
      (cs : List (List (Entry K V))) (i : ℕ) (c x : List (Entry K V))
      → get_elem? (set cs i c) i ≡ some x
      → c ≡ x
  get_elem?-set_same [] i c x h = cc
  get_elem?-set_same (y ∷ cs) zero c x h = some_eq h
  get_elem?-set_same (y ∷ cs) (suc i) c x h = get_elem?-set_same cs i c x h

  set-IsSingle :
      (d : Dic K V) (i n : ℕ) (c : List (Entry K V))
      → IsSingle d
      → ((k : K) → n_matching k c ≤ 1)
      → IsSingle (record d { size = n; dic = set d.dic i c })
  set-IsSingle d i n c single few j x at k = elim (get_elem?-set_cases d.dic i j c x at) [
    | inl e ↦ subst (λ (y : List (Entry K V)). n_matching k y ≤ 1) e (few k)
    | inr e ↦ single j x e k
  ]

  module _ (laws : IsKey K) (d : Dic K V) (single : IsSingle d) (k : K) where
    -- Another entry for a key that has none.
    few_snoc :
        (c : List (Entry K V)) (e : Entry K V)
        → ((q : K) → n_matching q c ≤ 1)
        → n_matching e.key c ≡ 0
        → (q : K) → n_matching q (c ++ e ∷ []) ≤ 1
    few_snoc c e few free q = elim (Bool-cases (equal_to q e.key)) [
      | inl m ↦ ground (arith, n_matching-snoc q c e, m, n_matching-same laws q e.key m c, free)
      | inr n ↦ ground (arith, n_matching-snoc q c e, n, few q)
    ]

    pub insert-IsSingle :
        (value : Option V) {s : Status} {d' : Dic K V}
        → view d k ≡ none
        → insert d true k value ≡ some (s, d')
        → IsSingle d'
    unfolding insert insert_at slot_of view
    insert-IsSingle value free ran = elim (Option-cases (get_elem? d.dic (home d k))) [
      | inl e ↦ cc (rw (insert, insert_at, slot_of, e) at ran)
      | inr (c, e) ↦
          subst (λ (r : Status × Dic K V). IsSingle r.1)
            (some_eq (rw (insert, insert_at, slot_of, e) at ran))
            (set-IsSingle d (home d k) (u32 (d.size + 1)) _ single (
              few_snoc c _ (single (home d k) c e)
                (n_matching-find_none k c (rw (view, e) at free))))
    ]

    view-set :
        (c : List (Entry K V)) (n : ℕ)
        → find k c ≡ none
        → view (record d { size = n; dic = set d.dic (home d k) c }) k ≡ none
    unfolding view
    view-set c n f = elim (Option-cases (get_elem? (set d.dic (home d k) c) (home d k))) [
      | inl e ↦ rw (view, e) refl
      | inr (x, e) ↦ rw (view, e, sym (get_elem?-set_same d.dic (home d k) c x e)) f
    ]

    pub delete-IsSingle :
        {s : Status} {cs : List (Release K V)} {d' : Dic K V}
        → delete d k ≡ some (s, cs, d')
        → IsSingle d' × (view d' k ≡ none)
    unfolding delete slot_of view
    delete-IsSingle ran = elim (Option-cases (get_elem? d.dic (home d k))) [
      | inl e ↦ cc (rw (delete, slot_of, e) at ran)
      | inr (c, e) ↦ elim (Option-cases (find k c)) [
        | inl f ↦
            subst
              (λ (r : Status × List (Release K V) × Dic K V). IsSingle r.2 × (view r.2 k ≡ none))
              (some_eq (rw (delete, slot_of, e, f) at ran)) (single, rw (view, e) f)
        | inr (x, f) ↦
            subst
              (λ (r : Status × List (Release K V) × Dic K V). IsSingle r.2 × (view r.2 k ≡ none))
              (some_eq (rw (delete, slot_of, e, f) at ran))
              (
                set-IsSingle d (home d k) (u32 (d.size + 2 ^ 32 - 1)) (unlink k c) single
                    (λ q. omega (arith, n_matching-unlink q k c, single (home d k) c e q)),
                view-set (unlink k c) (u32 (d.size + 2 ^ 32 - 1)) (
                    find-n_matching k (unlink k c)
                      (n_matching-unlink_self k c (single (home d k) c e k))),
              )
      ]
    ]

    pub delete-dtors :
        {s : Status} {cs : List (Release K V)} {d' : Dic K V}
        → delete d k ≡ some (s, cs, d')
        → (d'.key_dtor ≡ d.key_dtor) × (d'.val_dtor ≡ d.val_dtor)
    unfolding delete slot_of
    delete-dtors ran = elim (Option-cases (get_elem? d.dic (home d k))) [
      | inl e ↦ cc (rw (delete, slot_of, e) at ran)
      | inr (c, e) ↦ elim (Option-cases (find k c)) [
        | inl f ↦
            subst
              (λ (r : Status × List (Release K V) × Dic K V).
                (r.2.key_dtor ≡ d.key_dtor) × (r.2.val_dtor ≡ d.val_dtor))
              (some_eq (rw (delete, slot_of, e, f) at ran)) (refl, refl)
        | inr (x, f) ↦
            subst
              (λ (r : Status × List (Release K V) × Dic K V).
                (r.2.key_dtor ≡ d.key_dtor) × (r.2.val_dtor ≡ d.val_dtor))
              (some_eq (rw (delete, slot_of, e, f) at ran)) (refl, refl)
      ]
    ]

    pub insert-dtors :
        (value : Option V) {s : Status} {d' : Dic K V}
        → insert d true k value ≡ some (s, d')
        → (d'.key_dtor ≡ d.key_dtor) × (d'.val_dtor ≡ d.val_dtor)
    unfolding insert insert_at slot_of
    insert-dtors value ran = elim (Option-cases (get_elem? d.dic (home d k))) [
      | inl e ↦ cc (rw (insert, insert_at, slot_of, e) at ran)
      | inr (c, e) ↦
          subst
            (λ (r : Status × Dic K V). (r.1.key_dtor ≡ d.key_dtor) × (r.1.val_dtor ≡ d.val_dtor))
            (some_eq (rw (insert, insert_at, slot_of, e) at ran)) (refl, refl)
    ]

    find-same : (q : K) → equal_to q k ≡ true → (c : List (Entry K V)) → find q c ≡ find k c
    unfolding find
    find-same q m [] = refl
    find-same q m (x ∷ c) =
        let back : equal_to k q ≡ true = laws.equal_symm k q ∙ m in
        elim (Bool-cases (equal_to k x.key)) [
          | inl t ↦ rw (t, laws.equal_trans q k x.key m t) refl
          | inr f ↦ elim (Bool-cases (equal_to q x.key)) [
            | inl t ↦ absurd (cc (f, laws.equal_trans k q x.key back t))
            | inr g ↦ rw (f, g) (find-same q m c)
          ]
        ]

    -- Equal keys have the same answer.
    pub view-same : (q : K) → equal_to q k ≡ true → view d q ≡ view d k
    unfolding view
    view-same q m = elim (Option-cases (get_elem? d.dic (home d k))) [
      | inl e ↦ rw (view, laws.hasher_equal q k m, e) refl
      | inr (c, e) ↦ rw (view, laws.hasher_equal q k m, e) (find-same q m c)
    ]
