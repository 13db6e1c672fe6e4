-- ===== src/S1/HashDic.antt =====
-- s1/s1_hashdic.c: a chained dictionary of a fixed number of slots. A slot is the sequence of the
-- entries on its ring of links, without the dummy head. A pointer that may be NULL is an Option,
-- and a result none stands for a NULL pointer that is followed or a division by zero.
pub mod Laws
pub mod Ruin
pub mod Hash
pub mod Single
use servcraft.Prelude.{
  ℕ, zero, suc, ◌+◌, ◌-◌, ◌*◌, ◌%◌, ◌^◌, Bool, true, false, ◌&&◌, ◌||◌, Option, none, some, List,
  [], ◌∷◌, ◌++◌, ◌==◌, ltb, if◌then◌else◌, get_elem?, set, replicate,
}

abbrev pub u32 : ℕ → ℕ
u32 n = n % 2 ^ 32

-- struct s1_dic_entry.
pub record Entry {ℓ} (K V : Type ℓ) : Type ℓ where
  pub orig_hashval : ℕ
  pub key : K
  pub value : Option V

-- The function pointers hasher and equal_to(a, b) == 0.
pub record Callbacks {ℓ} (K : Type ℓ) : Type ℓ where
  pub hasher : K → ℕ
  pub equal_to : K → K → Bool

-- struct s1_dic; key_dtor and val_dtor say whether the pointers are set.
pub record Dic {ℓ} (K V : Type ℓ) : Type ℓ where
  pub size : ℕ
  pub capacity : ℕ
  pub key_dtor : Bool
  pub val_dtor : Bool
  pub dic : List (List (Entry K V))

-- What s1_dic_insert and s1_dic_delete return: 0 or -1.
pub data Status : Type 0 where
  success : Status
  failure : Status

-- The calls that take an entry apart.
pub data Release {ℓ} (K V : Type ℓ) : Type ℓ where
  key_dtor_call : K → Release K V
  val_dtor_call : Option V → Release K V
  deallocate : Entry K V → Release K V

module _ {ℓ} {K V : Type ℓ} where
  -- s1_dic_init: none of the three allocations is tested.
  unfoldable pub init :
      (dic_ok slots_ok dummies_ok key_dtor val_dtor : Bool) (n : ℕ) → Option (Dic K V)
  init dic_ok slots_ok dummies_ok key_dtor val_dtor n =
      if dic_ok && ((slots_ok && dummies_ok) || (n == 0))
      then some (record {
        size = 0;
        capacity = n;
        key_dtor = key_dtor;
        val_dtor = val_dtor;
        dic = replicate n [];
      })
      else none

  -- One turn of the inner loop of s1_dic_ruin. Both calls stand under the test of key_dtor.
  unfoldable pub ruin_item : (key_dtor val_dtor : Bool) → Entry K V → Option (List (Release K V))
  ruin_item key_dtor val_dtor e =
      if key_dtor
      then if val_dtor
        then some (key_dtor_call e.key ∷ val_dtor_call e.value ∷ deallocate e ∷ [])
        else none
      else some (deallocate e ∷ [])

  unfoldable pub ruin_slot :
      (key_dtor val_dtor : Bool) → List (Entry K V) → Option (List (Release K V))
  ruin_slot key_dtor val_dtor [] = some []
  ruin_slot key_dtor val_dtor (e ∷ c) =
      let rest = ruin_slot key_dtor val_dtor c in
      elim (ruin_item key_dtor val_dtor e) [
        | none ↦ none
        | some xs ↦ elim rest [ none ↦ none | some ys ↦ some (xs ++ ys) ]
      ]

  unfoldable pub ruin_slots :
      (key_dtor val_dtor : Bool) → List (List (Entry K V)) → Option (List (Release K V))
  ruin_slots key_dtor val_dtor [] = some []
  ruin_slots key_dtor val_dtor (c ∷ cs) =
      let rest = ruin_slots key_dtor val_dtor cs in
      elim (ruin_slot key_dtor val_dtor c) [
        | none ↦ none
        | some xs ↦ elim rest [ none ↦ none | some ys ↦ some (xs ++ ys) ]
      ]

  -- s1_dic_ruin, before the three blocks of the dictionary are given back.
  unfoldable pub ruin : Dic K V → Option (List (Release K V))
  ruin d = ruin_slots d.key_dtor d.val_dtor d.dic

  -- The calls that s1_dic_delete makes for the entry that it has unlinked.
  unfoldable pub drop_item : (key_dtor val_dtor : Bool) → Entry K V → List (Release K V)
  drop_item key_dtor val_dtor e =
      (if key_dtor then key_dtor_call e.key ∷ [] else [])
      ++ (if val_dtor then val_dtor_call e.value ∷ [] else [])
      ++ deallocate e ∷ []

module _ {ℓ} {K V : Type ℓ} ⦃calls : Callbacks K⦄ where
  open calls use {hasher, equal_to}

  -- dic->dic[idx % dic->cap], with its index.
  unfoldable pub slot_of : Dic K V → (idx : ℕ) → Option (ℕ × List (Entry K V))
  slot_of d idx = elim (get_elem? d.dic (idx % d.capacity)) [
    | none ↦ none
    | some c ↦ some (idx % d.capacity, c)
  ]

  abbrev pub write : Dic K V → ℕ → List (Entry K V) → ℕ → Dic K V
  write d i c size = record d { size = size; dic = set d.dic i c }

  -- The first entry of a slot that matches, and the slot without it.
  unfoldable pub find : K → List (Entry K V) → Option (Entry K V)
  find k [] = none
  find k (e ∷ c) = if equal_to k e.key then some e else find k c

  unfoldable pub unlink : K → List (Entry K V) → List (Entry K V)
  unlink k [] = []
  unlink k (e ∷ c) = if equal_to k e.key then c else e ∷ unlink k c

  -- dic_insert_at. The allocation is not tested; the slot is the address of a dummy, never NULL.
  unfoldable pub insert_at :
      Dic K V → (allocated : Bool) (idx : ℕ) → K → Option V → Option (Status × Dic K V)
  insert_at d allocated idx k v = elim (slot_of d idx) [
    | none ↦ none
    | some (i, c) ↦
        if allocated
        then some (
          success,
          write d i (c ++ (record { orig_hashval = idx; key = k; value = v }) ∷ [])
              (u32 (d.size + 1)),
        )
        else none
  ]

  unfoldable pub insert : Dic K V → (allocated : Bool) → K → Option V → Option (Status × Dic K V)
  insert d allocated k v = insert_at d allocated (hasher k) k v

  unfoldable pub delete : Dic K V → K → Option (Status × List (Release K V) × Dic K V)
  delete d k = elim (slot_of d (hasher k)) [
    | none ↦ none
    | some (i, c) ↦ elim (find k c) [
      | none ↦ some (failure, [], d)
      | some e ↦ some (
        success,
        drop_item d.key_dtor d.val_dtor e,
        write d i (unlink k c) (u32 (d.size + 2 ^ 32 - 1)),
      )
    ]
  ]

  unfoldable pub fetch : Dic K V → K → Option (Option V)
  fetch d k = elim (slot_of d (hasher k)) [
    | none ↦ none
    | some (i, c) ↦ elim (find k c) [ none ↦ some none | some e ↦ some e.value ]
  ]

-- s1_hasher_cstring_djb, up to the 0 that ends the string. A char is signed.
abbrev pub char_to_u32 : ℕ → ℕ
char_to_u32 c = if ltb c 128 then c else c + 2 ^ 32 - 256

unfoldable pub djb_loop : ℕ → List ℕ → ℕ
djb_loop hashval [] = hashval
djb_loop hashval (c ∷ cs) =
    let rest = djb_loop (u32 (u32 (u32 (hashval * 32) + hashval) + char_to_u32 c)) cs in
    if c == 0 then hashval else rest

unfoldable pub s1_hasher_cstring_djb : List ℕ → ℕ
s1_hasher_cstring_djb cs = djb_loop 5381 cs
