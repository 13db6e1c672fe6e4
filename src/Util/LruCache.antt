-- ===== src/Util/LruCache.antt =====
-- util/scraft_lru_cache.c: entries by key in a tree, and by use on a ring, the latest first. The
-- ring is the sequence of its entries. The red-black tree comes from another project: its calls
-- are the operations of the record `Tree`, an instance argument.
pub mod Laws
use servcraft.Prelude.{
  ℕ, ◌+◌, ◌-◌, ◌%◌, ◌^◌, Bool, true, false, Option, none, some, List, [], ◌∷◌, ◌++◌, ltb,
  if◌then◌else◌, erase,
}

-- scraft_rbt_init, scraft_rbt_insert, scraft_rbt_delete and scraft_rbt_find, for nodes and keys by
-- address.
pub record Tree (M : Type 0) : Type 0 where
  pub init : M
  pub insert : ℕ → M → M
  pub delete : ℕ → M → M
  pub find : M → ℕ → Option ℕ

abbrev pub u32 : ℕ → ℕ
u32 n = n % 2 ^ 32

-- struct scraft_lru_cache, and the entries that were given to dtor, in order.
pub record LruCache (M : Type 0) : Type 0 where
  pub capacity : ℕ
  pub size : ℕ
  pub map : M
  pub queue : List ℕ
  pub destroyed : List ℕ

-- The entry before the head of the ring.
abbrev pub last : ℕ → List ℕ → ℕ
last e [] = e
last e (x ∷ xs) = last x xs

module _ {M : Type 0} ⦃tree : Tree M⦄ where
  unfoldable pub cache_init : (capacity : ℕ) → LruCache M
  cache_init capacity = record {
    capacity = capacity;
    size = 0;
    map = tree.init;
    queue = [];
    destroyed = [];
  }

  -- scraft_lru_cache_add_.
  unfoldable pub add_inner : ℕ → LruCache M → LruCache M
  add_inner entry c = record c {
    queue = entry ∷ c.queue;
    map = tree.insert entry c.map;
    size = u32 (c.size + 1);
  }

  unfoldable pub cache_delete : ℕ → LruCache M → LruCache M
  cache_delete entry c = record c {
    queue = erase entry c.queue;
    map = tree.delete entry c.map;
    destroyed = c.destroyed ++ entry ∷ [];
    size = u32 (c.size + 2 ^ 32 - 1);
  }

  unfoldable pub cache_add : ℕ → LruCache M → LruCache M
  unfolding add_inner
  cache_add entry c =
      let c₁ = add_inner entry c in
      if ltb c.capacity c₁.size then cache_delete (last entry c.queue) c₁ else c₁

  unfoldable pub cache_fetch : ℕ → LruCache M → Option ℕ × LruCache M
  cache_fetch key c = elim (tree.find c.map key) [
    | none ↦ (none, c)
    | some entry ↦ (some entry, record c { queue = entry ∷ erase entry c.queue })
  ]
