-- ===== src/Util/Hashtable.antt =====
-- util/scraft_hashtable.c: a chained hash table of a fixed number of slots, whose chains are kept
-- in order of use. A chain is the sequence of the keys on its ring of links. The callbacks are the
-- fields of `Callbacks`, and a key is whatever record of its client embeds the hash key.
pub mod Chains
pub mod View
pub mod Laws
pub mod Lifetime
use servcraft.Prelude.{
  ℕ, zero, suc, ◌+◌, ◌-◌, ◌*◌, ◌%◌, ◌^◌, Bool, true, false, Option, none, some, List, [], ◌∷◌, ◌++◌,
  ◌==◌, if◌then◌else◌, get_elem?, set, replicate, ltb,
}

-- key_compare(a, b) == 0, and hashfunc.
pub record Callbacks {ℓ} (K : Type ℓ) : Type ℓ where
  pub matches : K → K → Bool
  pub hashfunc : K → ℕ

-- struct scraft_hashkey within its client's record.
pub record Hashkey {ℓ} (K : Type ℓ) : Type ℓ where
  pub key : K
  pub n_hits : ℕ

-- struct scraft_hashslot.
pub record Hashslot {ℓ} (K : Type ℓ) : Type ℓ where
  pub cluster : List (Hashkey K)
  pub size : ℕ

-- struct scraft_hashtable; `destroys` says whether key_destroy is set.
pub record Hashtable {ℓ} (K : Type ℓ) : Type ℓ where
  pub cap : ℕ
  pub destroys : Bool
  pub slots : List (Hashslot K)

abbrev pub u64 : ℕ → ℕ
u64 n = n % 2 ^ 64

-- The two blocks that a table owns.
pub data Block : Type 0 where
  dic_block : Block
  slots_block : Block

abbrev pub empty_slot {ℓ} : {K : Type ℓ} → Hashslot K
empty_slot = record { cluster = []; size = 0 }

-- The table, if both allocations succeed, and the blocks given back.
unfoldable pub new {ℓ} :
    {K : Type ℓ} (dic_allocated slots_allocated destroys : Bool) (cap : ℕ)
    → Option (Hashtable K) × List Block
new false slots_allocated destroys cap = (none, [])
new true false destroys cap = (none, dic_block ∷ [])
new true true destroys cap =
    (some (record { cap = cap; destroys = destroys; slots = replicate cap empty_slot }), [])

module _ {ℓ} {K : Type ℓ} where
  -- The inner loop of scraft_hashtable_destroy: the emptied slot, and the keys given to
  -- key_destroy in order.
  unfoldable pub drain_slot : Bool → List (Hashkey K) → ℕ → ℕ × List (Hashkey K)
  drain_slot destroys [] size = (size, [])
  drain_slot destroys (e ∷ c) size =
      let (size', gone) = drain_slot destroys c (u64 (size + 2 ^ 64 - 1)) in
      (size', if destroys then e ∷ gone else gone)

  unfoldable pub drain_slots : Bool → List (Hashslot K) → List (Hashkey K)
  unfolding drain_slot
  drain_slots destroys [] = []
  drain_slots destroys (s ∷ ss) =
      (drain_slot destroys s.cluster s.size).1 ++ drain_slots destroys ss

  -- The keys destroyed, and the blocks given back.
  unfoldable pub destroy : Hashtable K → List (Hashkey K) × List Block
  unfolding drain_slots
  destroy dic = (drain_slots dic.destroys dic.slots, slots_block ∷ dic_block ∷ [])

module _ {ℓ} {K : Type ℓ} ⦃calls : Callbacks K⦄ where
  open calls use {matches, hashfunc}

  -- The slot of a key: none for a table without slots, where the code divides by zero.
  unfoldable pub slot_of : Hashtable K → K → Option (ℕ × Hashslot K)
  slot_of dic k =
      let i = hashfunc k % dic.cap in
      elim (get_elem? dic.slots i) [ none ↦ none | some s ↦ some (i, s) ]

  abbrev pub write : Hashtable K → ℕ → Hashslot K → Hashtable K
  write dic i s = record dic { slots = set dic.slots i s }

  -- scraft_hashtable_find over one chain, and list_del of the key that it returns.
  unfoldable pub find : K → List (Hashkey K) → Option (Hashkey K)
  find k [] = none
  find k (e ∷ c) = if matches k e.key then some e else find k c

  unfoldable pub unlink : K → List (Hashkey K) → List (Hashkey K)
  unlink k [] = []
  unlink k (e ∷ c) = if matches k e.key then c else e ∷ unlink k c

  unfoldable pub insert : Hashtable K → K → Option (Hashtable K)
  insert dic k = elim (slot_of dic k) [
    | none ↦ none
    | some (i, s) ↦
        let e : Hashkey K = record { key = k; n_hits = 0 } in
        some (write dic i (record { cluster = e ∷ s.cluster; size = u64 (s.size + 1) }))
  ]

  abbrev pub hit : Hashkey K → Hashkey K
  hit e = record e { n_hits = u64 (e.n_hits + 1) }

  -- A key that is found moves to the front of its chain.
  unfoldable pub fetch : Hashtable K → K → Option (Option (Hashkey K) × Hashtable K)
  fetch dic k = elim (slot_of dic k) [
    | none ↦ none
    | some (i, s) ↦ elim (find k s.cluster) [
      | none ↦ some (none, dic)
      | some e ↦
          some (some (hit e), write dic i (record s { cluster = hit e ∷ unlink k s.cluster }))
    ]
  ]

  -- scraft_hashtable_remove_inner, which scraft_hashtable_remove passes on.
  unfoldable pub remove : Hashtable K → K → Option (Option (Hashkey K) × Hashtable K)
  remove dic k = elim (slot_of dic k) [
    | none ↦ none
    | some (i, s) ↦ elim (find k s.cluster) [
      | none ↦ some (none, dic)
      | some e ↦ some (some e, write dic i (record s { cluster = unlink k s.cluster }))
    ]
  ]

  -- scraft_hashtable_delete: the argument of the call of key_destroy, where one is made; the inner
  -- none stands for NULL.
  unfoldable pub delete : Hashtable K → K → Option (Option (Option (Hashkey K)) × Hashtable K)
  delete dic k = elim (remove dic k) [
    | none ↦ none
    | some (o, dic') ↦ some (if dic.destroys then some o else none, dic')
  ]

-- scraft_hashaux_djb_cstring: a char is signed, so a byte from 128 on stands for itself less 256.
abbrev pub char_to_u64 : ℕ → ℕ
char_to_u64 c = if ltb c 128 then c else c + 2 ^ 64 - 256

unfoldable pub djb_loop : ℕ → List ℕ → ℕ
djb_loop hashval [] = hashval
djb_loop hashval (c ∷ cs) =
    let rest = djb_loop (u64 (u64 (u64 (hashval * 32) + hashval) + char_to_u64 c)) cs in
    if c == 0 then hashval else rest

unfoldable pub djb_cstring : List ℕ → ℕ
unfolding djb_loop
djb_cstring cs = djb_loop 5381 cs
