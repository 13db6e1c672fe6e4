-- ===== src/Util/Hashtable/Chains.antt =====
-- Lookups in one chain, and what adding, moving and unlinking a key do to them.
use servcraft.Prelude.{
  ℕ, ◌+◌, ◌≡◌, refl, Bool, true, false, none, some, List, [], ◌∷◌, arith, length,
}
use servcraft.Util.Hashtable.{Callbacks, Hashkey, find, unlink}

-- What a table asks of its callbacks: matching is an equivalence that the hash respects.
pub record IsKey {ℓ} (K : Type ℓ) ⦃calls : Callbacks K⦄ : Type ℓ where
  pub matches_refl : (a : K) → calls.matches a a ≡ true
  pub matches_symm : (a b : K) → calls.matches a b ≡ calls.matches b a
  pub matches_trans :
      (a b c : K) → calls.matches a b ≡ true → calls.matches b c ≡ true → calls.matches a c ≡ true
  pub hash_matches : (a b : K) → calls.matches a b ≡ true → calls.hashfunc a ≡ calls.hashfunc b

abbrev pub to_nat : Bool → ℕ
to_nat true = 1
to_nat false = 0

module _ {ℓ} {K : Type ℓ} ⦃calls : Callbacks K⦄ where
  open calls use {matches, hashfunc}

  -- The number of keys of the chain that match.
  unfoldable pub count : K → List (Hashkey K) → ℕ
  count q [] = 0
  count q (e ∷ c) = to_nat (matches q e.key) + count q c

  pub find-eq-some :
      (k : K) (c : List (Hashkey K)) (e : Hashkey K) → find k c ≡ some e → matches k e.key ≡ true
  unfolding find
  find-eq-some k [] e h = cc
  find-eq-some k (x ∷ c) e h = ground (arith, find-eq-some k c e)

  pub length-unlink :
      (k : K) (c : List (Hashkey K)) (e : Hashkey K)
      → find k c ≡ some e
      → length (unlink k c) + 1 ≡ length c
  unfolding find unlink
  length-unlink k [] e h = cc
  length-unlink k (x ∷ c) e h = ground (arith, length-unlink k c e)

  pub find-none_iff : (k : K) (c : List (Hashkey K)) → (find k c ≡ none) → count k c ≡ 0
  unfolding find count
  find-none_iff k [] h = refl
  find-none_iff k (x ∷ c) h = ground (arith, find-none_iff k c)

  module _ (laws : IsKey K) where
    open laws use {matches_refl, matches_symm, matches_trans}

    pub matches_congr : (a b c : K) → matches a b ≡ true → matches a c ≡ matches b c
    matches_congr a b c h =
        ground (arith, matches_symm a b, matches_trans a b c, matches_trans b a c)

    pub matches_congr_right : (a b c : K) → matches b c ≡ true → matches a b ≡ matches a c
    matches_congr_right a b c h =
        ground (arith, matches_trans a b c, matches_trans a c b, matches_symm b c)

    pub find_congr : (a b : K) (c : List (Hashkey K)) → matches a b ≡ true → find a c ≡ find b c
    unfolding find
    find_congr a b [] h = refl
    find_congr a b (x ∷ c) h = ground (arith, matches_congr a b x.key, find_congr a b c)

    pub find-unlink_ne :
        (q k : K) (c : List (Hashkey K)) → matches q k ≡ false → find q (unlink k c) ≡ find q c
    unfolding find unlink
    find-unlink_ne q k [] h = refl
    find-unlink_ne q k (x ∷ c) h =
        ground (arith, find-unlink_ne q k c, matches_symm k x.key, matches_trans q x.key k)

    pub count-unlink :
        (q k : K) (c : List (Hashkey K)) (e : Hashkey K)
        → find k c ≡ some e
        → count q (unlink k c) + to_nat (matches q k) ≡ count q c
    unfolding find unlink count
    count-unlink q k [] e h = cc
    count-unlink q k (x ∷ c) e h = ground (
      arith,
      count-unlink q k c e,
      matches_congr k x.key q,
      matches_symm q k,
      matches_symm q x.key,
    )
