-- ===== src/S1/DlMgr/Laws.antt =====
-- s1/s1_dlbase.c: an alias names one library at most, from s1_dllib_load to s1_dllib_unload, and every
-- library that is named is as S1/DlBase leaves it.
use servcraft.Prelude.{
  ℕ, zero, suc, ◌<◌, ◌≡◌, ◌≢◌, ◌∙◌, ap, refl, sym, true, false, Option, none, some, List, [], ◌∷◌,
  if◌then◌else◌, update, length, arith, ==_self, Bool-cases, inl, inr, some_eq, ◌⊎◌, ==_of_ne,
}
use mathlib.Core.Path.{subst}
use servcraft.S1.HashDic
use servcraft.S1.HashDic.{Entry, Dic, success, failure, s1_hasher_cstring_djb, drop_item}
use servcraft.S1.HashDic.Laws.{IsKey, IsValid, view, or_else, insert-view, fetch-view}
use servcraft.S1.HashDic.Single.{IsSingle, insert-IsSingle, insert-dtors, view-same}
use servcraft.S1.DlBase.{DlWrap, Libraries, dlbase_init, dlwrap_init}
use servcraft.S1.DlBase.Invariant.{IsOpen, dlbase_init-IsOpen}
use servcraft.S1.DlMgr.{
  filename_max, Alias, strncmp_equal, alias_compare, alias_callbacks, DlMgr, load, load_unless,
  load_base, inserted,
}

strncmp_equal_self : (n : ℕ) (a : List ℕ) → strncmp_equal n a a ≡ true
unfolding strncmp_equal
strncmp_equal_self zero a = refl
strncmp_equal_self (suc n) [] = refl
strncmp_equal_self (suc n) (c ∷ a) = rw (==_self c) (strncmp_equal_self n a)

strncmp_equal_eq :
    (n : ℕ) (a b : List ℕ) → length a < n → length b < n → strncmp_equal n a b ≡ true → a ≡ b
unfolding strncmp_equal
strncmp_equal_eq zero a b p q h = absurd (omega (arith, p))
strncmp_equal_eq (suc n) [] [] p q h = refl
strncmp_equal_eq (suc n) [] (d ∷ b) p q h = cc
strncmp_equal_eq (suc n) (c ∷ a) [] p q h = cc
strncmp_equal_eq (suc n) (c ∷ a) (d ∷ b) p q h =
    ground (arith, h, strncmp_equal_eq n a b (omega (arith, p)) (omega (arith, q)))

strncmp_equal_symm : (n : ℕ) (a b : List ℕ) → strncmp_equal n a b ≡ strncmp_equal n b a
unfolding strncmp_equal
strncmp_equal_symm zero a b = refl
strncmp_equal_symm (suc n) [] [] = refl
strncmp_equal_symm (suc n) [] (d ∷ b) = refl
strncmp_equal_symm (suc n) (c ∷ a) [] = refl
strncmp_equal_symm (suc n) (c ∷ a) (d ∷ b) = rw (strncmp_equal_symm n a b) (ground arith)

same_bytes : (a b : Alias) → alias_compare a b ≡ true → a.bytes ≡ b.bytes
same_bytes a b h = strncmp_equal_eq filename_max a.bytes b.bytes a.short b.short h

pub alias_compare_self : (a : Alias) → alias_compare a a ≡ true
alias_compare_self a = strncmp_equal_self filename_max a.bytes

-- Equal aliases have the same hash.
pub alias-IsKey : IsKey Alias
alias-IsKey = record {
  hasher_equal = λ a b h. ap s1_hasher_cstring_djb (same_bytes a b h);
  equal_symm = λ a b. strncmp_equal_symm filename_max a.bytes b.bytes;
  equal_trans = λ a b c h k.
      subst (λ bs. strncmp_equal filename_max bs c.bytes ≡ true) (sym (same_bytes a b h)) k;
}

-- The base that an alias names.
abbrev pub value_of : Option (Entry Alias ℕ) → Option ℕ
value_of none = none
value_of (some e) = e.value

abbrev pub lookup : DlMgr → Alias → Option ℕ
lookup m a = value_of (view m.dic a)

-- Every entry has a base, no two aliases have the same one, and each is open.
pub record IsMgr (m : DlMgr) : Type 0 where
  pub valid : IsValid m.dic
  pub single : IsSingle m.dic
  pub key_dtor : m.dic.key_dtor ≡ false
  pub val_dtor : m.dic.val_dtor ≡ true
  pub filled : (a : Alias) → lookup m a ≡ none → view m.dic a ≡ none
  pub apart :
      (a b : Alias) (x : ℕ) → lookup m a ≡ some x → lookup m b ≡ some x → alias_compare a b ≡ true
  pub opened : (a : Alias) (x : ℕ) → lookup m a ≡ some x → IsOpen (m.libraries x)

pub fetch-lookup : (m : DlMgr) → IsMgr m → (a : Alias) → HashDic.fetch m.dic a ≡ some (lookup m a)
fetch-lookup m is a = fetch-view alias-IsKey m.dic is.valid a ∙ ap some (same (view m.dic a))
  where
    same :
        (o : Option (Entry Alias ℕ))
        → elim o as (λ _. Option ℕ) [ none ↦ none | some e ↦ e.value ] ≡ value_of o
    same none = refl
    same (some e) = refl

dlbase_init_closed : (wraps : ℕ → DlWrap) (w : ℕ) → dlbase_init wraps (some w) true none ≡ none
unfolding dlbase_init dlwrap_init
dlbase_init_closed wraps w = refl

value_of-or_else : (o : Option (Entry Alias ℕ)) → value_of (or_else o none) ≡ value_of o
value_of-or_else none = refl
value_of-or_else (some e) = refl

or_else-none : (o p : Option (Entry Alias ℕ)) → o ≡ none → p ≡ none → or_else o p ≡ none
or_else-none o p e f = rw (e, f) refl

module _ (m : DlMgr) (is : IsMgr m) (a : Alias) where
  module _ (b w handle : ℕ) (free : lookup m a ≡ none)
      (fresh : (q : Alias) → lookup m q ≢ some b) where
    module _ (l : Libraries) (d : Dic Alias ℕ) (opened : IsOpen l)
        (ran : HashDic.insert m.dic true a (some b) ≡ some (success, d)) (valid : IsValid d)
        (views : (q : Alias)
          → view d q
            ≡ or_else (view m.dic q) (
                if alias_compare q a
                then some (record {
                  orig_hashval = s1_hasher_cstring_djb a.bytes;
                  key = a;
                  value = some b;
                })
                else none)) where
      abbrev loaded : DlMgr
      loaded = record { dic = d; libraries = update m.libraries b l }

      loaded-lookup :
          (q : Alias) → lookup loaded q ≡ (if alias_compare q a then some b else lookup m q)
      loaded-lookup q = elim (Bool-cases (alias_compare q a)) [
        | inl t ↦
            ap value_of (views q)
            ∙ rw (t, view-same alias-IsKey m.dic is.single a q t, is.filled a free) refl
        | inr f ↦ ap value_of (views q) ∙ rw f (value_of-or_else (view m.dic q))
      ]

      named_before :
          (q : Alias) (x : ℕ)
          → lookup loaded q ≡ some x
          → ((alias_compare q a ≡ true) × (x ≡ b)) ⊎ (lookup m q ≡ some x)
      named_before q x h = elim (Bool-cases (alias_compare q a)) [
        | inl t ↦ inl (t, sym (some_eq (rw (loaded-lookup q, t) at h)))
        | inr f ↦ inr (rw (loaded-lookup q, f) at h)
      ]

      loaded-IsMgr : IsMgr loaded
      loaded-IsMgr =
          let dtors = insert-dtors alias-IsKey m.dic is.single a (some b) ran in
          record {
            valid = valid;
            single = insert-IsSingle alias-IsKey m.dic is.single a (some b) (is.filled a free) ran;
            key_dtor = dtors.0 ∙ is.key_dtor;
            val_dtor = dtors.1 ∙ is.val_dtor;
            filled = λ q h. elim (Bool-cases (alias_compare q a)) [
              | inl t ↦ cc (rw (loaded-lookup q, t) at h)
              | inr f ↦
                  views q
                  ∙ rw f (
                      or_else-none (view m.dic q) none (is.filled q (rw (loaded-lookup q, f) at h))
                        refl)
            ];
            apart = λ q r x h k. elim (named_before q x h) [
              | inl (t, e) ↦ elim (named_before r x k) [
                | inl (u, f) ↦ alias-IsKey.equal_trans q a r t (alias-IsKey.equal_symm a r ∙ u)
                | inr v ↦ absurd (fresh r (v ∙ ap some e))
              ]
              | inr v ↦ elim (named_before r x k) [
                | inl (u, f) ↦ absurd (fresh q (v ∙ ap some f))
                | inr u ↦ is.apart q r x v u
              ]
            ];
            opened = λ q x h. elim (named_before q x h) [
              | inl (t, e) ↦ rw (e, ==_self b) opened
              | inr v ↦ rw (==_of_ne b x (λ e. fresh q (v ∙ ap some (sym e)))) (is.opened q x v)
            ];
          }

    -- s1_dllib_load of an alias that names no library, with a new base whose wraps are not called:
    -- where dlopen and all allocations succeed, it returns 0, the alias and those that are equal to
    -- it name the base from then on, no other alias changes, and the manager is as sound as before;
    -- where dlopen fails, NULL is taken for an alias and followed.
    pub load-Loaded :
        ((x : ℕ) → ((m.libraries b).wraps x).invcnt ≡ 0)
        → (m' : DlMgr) × (load (some b) (some w) true (some handle) true a m ≡ some (true, m'))
          × IsMgr m'
          × ((q : Alias) → lookup m' q ≡ (if alias_compare q a then some b else lookup m q))
          × (load (some b) (some w) true none true a m ≡ none)
    unfolding load load_unless load_base inserted
    load-Loaded idle =
        let (l, built, opened) = dlbase_init-IsOpen (m.libraries b).wraps w handle idle in
        let (d, ran, valid, views, _) = insert-view alias-IsKey m.dic is.valid a (some b) in
        (
          record { dic = d; libraries = update m.libraries b l },
          rw (fetch-lookup m is a, free, built, ran) refl,
          loaded-IsMgr l d opened ran valid views,
          loaded-lookup l d opened ran valid views,
          rw (fetch-lookup m is a, free, dlbase_init_closed (m.libraries b).wraps w) refl,
        )
