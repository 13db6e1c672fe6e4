-- ===== src/Tests/Caches.antt =====
-- A cache for two entries, with a list of nodes in the place of the tree. An entry is its own key.
use servcraft.Prelude.{
  ℕ, ◌≡◌, refl, true, false, ◌&&◌, not, Option, none, some, List, [], ◌∷◌, arith, ◌==◌,
  if◌then◌else◌, has,
}
use servcraft.Util.LruCache.{Tree, LruCache, cache_add}
use servcraft.Util.LruCache.Laws.{IsTree, IsCache, cache_add-IsCache}

abbrev without : ℕ → List ℕ → List ℕ
without e [] = []
without e (x ∷ xs) = if x == e then without e xs else x ∷ without e xs

abbrev search_key : List ℕ → ℕ → Option ℕ
search_key [] k = none
search_key (x ∷ xs) k = if k == x then some x else search_key xs k

instance abbrev nodes : Tree (List ℕ)
nodes = record { init = []; insert = λ e xs. e ∷ xs; delete = without; find = search_key }

has-without : (e n : ℕ) (xs : List ℕ) → has n (without e xs) ≡ (not (n == e) && has n xs)
has-without e n [] = ground arith
has-without e n (x ∷ xs) = ground (arith, has-without e n xs)

search_key-some :
    (xs : List ℕ) (k n : ℕ) → search_key xs k ≡ some n → (has n xs ≡ true) × ((k == n) ≡ true)
search_key-some [] k n h = cc
search_key-some (x ∷ xs) k n h = ground (arith, search_key-some xs k n)

search_key-none :
    (xs : List ℕ) (k n : ℕ) → search_key xs k ≡ none → has n xs ≡ true → (k == n) ≡ false
search_key-none [] k n h m = cc
search_key-none (x ∷ xs) k n h m = ground (arith, search_key-none xs k n)

nodes-IsTree : IsTree (List ℕ) (λ n. n) (λ k n. k == n)
nodes-IsTree = record {
  holds = λ xs n. has n xs;
  holds-init = λ n. refl;
  holds-insert = λ xs e n. refl;
  holds-delete = λ xs e n. has-without e n xs;
  find-some = search_key-some;
  find-none = λ xs k h n m. search_key-none xs k n h m;
}

abbrev full : LruCache (List ℕ)
full = record { capacity = 2; size = 2; map = 4 ∷ 5 ∷ []; queue = 4 ∷ 5 ∷ []; destroyed = [] }

full-IsCache : IsCache (λ n. n) (λ k n. k == n) nodes-IsTree full
unfolding nodes-IsTree
full-IsCache = record {
  distinct = (refl, (refl, tt));
  counted = refl;
  bounded = omega arith;
  small = omega arith;
  mapped = λ n. refl;
}

cache_add-IsCache_example :
    IsCache (λ n. n) (λ k n. k == n) nodes-IsTree (cache_add 6 full)
    × ((cache_add 6 full).queue ≡ 6 ∷ 4 ∷ [])
    × ((cache_add 6 full).destroyed ≡ 5 ∷ [])
cache_add-IsCache_example =
    cache_add-IsCache (λ n. n) (λ k n. k == n) nodes-IsTree full full-IsCache 6 refl
