-- ===== src/Util/LruCache/Laws.antt =====
-- The cache keeps the latest entries up to its bound, and gives the oldest to its destructor.
use servcraft.Prelude.{
  ℕ, ◌+◌, ◌^◌, ◌<◌, ◌≤◌, ◌≡◌, ◌∙◌, refl, sym, Bool, true, false, ◌||◌, ◌&&◌, not, Option, none,
  some, List, [], ◌∷◌, ◌++◌, arith, ◌==◌, ltb, if◌then◌else◌, erase, has, Distinct, length,
  Bool-cases, Option-cases, inl, inr,
}
use servcraft.Util.LruCache.{
  Tree, u32, LruCache, last, cache_init, add_inner, cache_delete, cache_add, cache_fetch,
}

-- What the cache asks of the tree: which nodes it holds, by the calls that made it, and that a
-- lookup finds a node with the key if it holds one.
pub record IsTree (M : Type 0) ⦃tree : Tree M⦄ (key_of : ℕ → ℕ) (same : ℕ → ℕ → Bool) : Type 0 where
  pub holds : M → ℕ → Bool
  pub holds-init : (n : ℕ) → holds tree.init n ≡ false
  pub holds-insert : (m : M) (e n : ℕ) → holds (tree.insert e m) n ≡ ((n == e) || holds m n)
  pub holds-delete : (m : M) (e n : ℕ) → holds (tree.delete e m) n ≡ (not (n == e) && holds m n)
  pub find-some :
      (m : M) (k : ℕ) (n : ℕ)
      → tree.find m k ≡ some n
      → (holds m n ≡ true) × (same k (key_of n) ≡ true)
  pub find-none :
      (m : M) (k : ℕ)
      → tree.find m k ≡ none
      → (n : ℕ) → holds m n ≡ true
      → same k (key_of n) ≡ false

has-erase : (e n : ℕ) (xs : List ℕ) → Distinct xs → has n (erase e xs) ≡ (not (n == e) && has n xs)
has-erase e n [] d = ground arith
has-erase e n (x ∷ xs) d = ground (arith, has-erase e n xs)

Distinct-erase : (e : ℕ) (xs : List ℕ) → Distinct xs → Distinct (erase e xs)
Distinct-erase e [] d = tt
Distinct-erase e (x ∷ xs) d = ground (arith, Distinct-erase e xs, has-erase e x xs)

length-erase : (e : ℕ) (xs : List ℕ) → has e xs ≡ true → length (erase e xs) + 1 ≡ length xs
length-erase e [] h = cc
length-erase e (x ∷ xs) h = ground (arith, length-erase e xs)

has-last : (e : ℕ) (xs : List ℕ) → has (last e xs) (e ∷ xs) ≡ true
has-last e [] = ground arith
has-last e (x ∷ xs) = ground (arith, has-last x xs)

module _ {M : Type 0} ⦃tree : Tree M⦄ (key_of : ℕ → ℕ) (same : ℕ → ℕ → Bool)
    (laws : IsTree M key_of same) where
  open laws use {holds}

  -- The ring and the tree hold the same entries, once each, and no more than the bound.
  pub record IsCache (c : LruCache M) : Type 0 where
    pub distinct : Distinct c.queue
    pub counted : c.size ≡ length c.queue
    pub bounded : c.size ≤ c.capacity
    pub small : c.capacity + 1 < 2 ^ 32
    pub mapped : (n : ℕ) → holds c.map n ≡ has n c.queue

  pub cache_init-IsCache : (capacity : ℕ) → capacity + 1 < 2 ^ 32 → IsCache (cache_init capacity)
  unfolding cache_init
  cache_init-IsCache capacity small = record {
    distinct = tt;
    counted = refl;
    bounded = omega arith;
    small = small;
    mapped = laws.holds-init;
  }

  module _ (c : LruCache M) (v : IsCache c) where
    -- An entry that is not in the cache goes to the front, and the invariant is kept. Where the
    -- cache was full, the entry that was last is destroyed, and else none is.
    pub cache_add-IsCache :
        (e : ℕ)
        → has e c.queue ≡ false
        → IsCache (cache_add e c)
          × ((cache_add e c).queue ≡ (
              if ltb c.size c.capacity then e ∷ c.queue else erase (last e c.queue) (e ∷ c.queue)))
          × ((cache_add e c).destroyed
              ≡ (if ltb c.size c.capacity then c.destroyed else c.destroyed ++ last e c.queue ∷ []))
    unfolding cache_add add_inner cache_delete
    cache_add-IsCache e out =
        let size : u32 (c.size + 1) ≡ c.size + 1 = omega (arith, v.bounded, v.small) in
        elim (Bool-cases (ltb c.size c.capacity)) [
          | inl room ↦
              let fits : ltb c.capacity (u32 (c.size + 1)) ≡ false = ground arith in
              rw (room, fits)
                (
                  record {
                    distinct = (out, v.distinct);
                    counted = omega (arith, size, v.counted);
                    bounded = ground (arith, size);
                    small = v.small;
                    mapped = λ n. ground (arith, laws.holds-insert c.map e n, v.mapped n);
                  },
                  refl,
                  refl,
                )
          | inr full ↦
              let over : ltb c.capacity (u32 (c.size + 1)) ≡ true = ground (arith, v.bounded) in
              rw (full, over)
                (
                  record {
                    distinct = Distinct-erase (last e c.queue) (e ∷ c.queue) (out, v.distinct);
                    counted = omega (
                      arith,
                      size,
                      v.counted,
                      length-erase (last e c.queue) (e ∷ c.queue) (has-last e c.queue),
                    );
                    bounded = ground (arith, size, v.bounded, v.small);
                    small = v.small;
                    mapped = λ n. ground (
                      arith,
                      laws.holds-delete (tree.insert e c.map) (last e c.queue) n,
                      laws.holds-insert c.map e n,
                      v.mapped n,
                      has-erase (last e c.queue) n (e ∷ c.queue) (out, v.distinct),
                    );
                  },
                  refl,
                  refl,
                )
        ]

    -- The outcome of a fetch, by what the tree finds.
    abbrev pub Fetched : ℕ → Option ℕ → Option ℕ × LruCache M → Type 0
    Fetched k none r =
        (r ≡ (none, c)) × ((n : ℕ) → has n c.queue ≡ true → same k (key_of n) ≡ false)
    Fetched k (some e) r =
        (c' : LruCache M) × (r ≡ (some e, c'))
        × (has e c.queue ≡ true)
        × (same k (key_of e) ≡ true)
        × (c'.queue ≡ e ∷ erase e c.queue)
        × (c'.destroyed ≡ c.destroyed)
        × IsCache c'

    -- A fetch gives an entry of the cache with the key and moves it to the front, destroying none
    -- and keeping the invariant; or there is no entry with the key, and nothing changes.
    pub cache_fetch-Fetched : (k : ℕ) → Fetched k (tree.find c.map k) (cache_fetch k c)
    unfolding cache_fetch
    cache_fetch-Fetched k = elim (Option-cases (tree.find c.map k)) [
      | inl e ↦ rw e (rw (cache_fetch, e), λ n h. laws.find-none c.map k e n (v.mapped n ∙ h))
      | inr (x, e) ↦
          let (held, match) = laws.find-some c.map k x e in
          let inside : has x c.queue ≡ true = sym (v.mapped x) ∙ held in
          rw e (
            record c { queue = x ∷ erase x c.queue },
            rw (cache_fetch, e),
            inside,
            match,
            refl,
            refl,
            record {
              distinct = (
                ground (arith, has-erase x x c.queue v.distinct),
                Distinct-erase x c.queue v.distinct,
              );
              counted = omega (arith, v.counted, length-erase x c.queue inside);
              bounded = v.bounded;
              small = v.small;
              mapped = λ n. ground (arith, v.mapped n, has-erase x n c.queue v.distinct);
            },
          )
    ]
