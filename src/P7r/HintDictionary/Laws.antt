-- ===== src/P7r/HintDictionary/Laws.antt =====
-- p7r/p7r_stack_hint_dictionary.c: a hint that is put is the one that its name gives from then on.
use mathlib.Core.Option
use servcraft.Prelude.{
  ℕ, ◌≡◌, ◌∙◌, ap, refl, sym, Bool, true, false, Option, none, some, if◌then◌else◌, ◌<◌,
}
use servcraft.Util.Hashtable.{Hashkey, hit}
use servcraft.Util.Hashtable.Chains.{IsKey}
use servcraft.Util.Hashtable.View.{IsValid, view}
use servcraft.Util.Hashtable.Laws.{insert-Answers, fetch-Answers}
use servcraft.Util.Hashtable.Lifetime.{new-IsValid}
use servcraft.P7r.StackHint.{entry_matches, entry_hash, HintKey}
use servcraft.P7r.StackHint.Keys.{IsProper, entry_matches_iff}
use servcraft.P7r.HintDictionary.{
  HintName, by_name, by_entrance, hint_key, Hint, hint_callbacks, HintDictionary, with_table, init,
  put, hint_of, dummy, fetched, get, hash_of,
}

proper : (n : HintName) → IsProper (hint_key n).solid_entrance (hint_key n).name
unfolding hint_key
proper (by_name name) = tt
proper (by_entrance entrance) = tt

same_eq :
    (n m : HintName) → entry_matches (hint_key n) (hint_key m) ≡ true → hint_key n ≡ hint_key m
same_eq n m h = (entry_matches_iff (hint_key n) (hint_key m) (proper n) (proper m)).0.0 h

eq_same :
    (n m : HintName) → hint_key n ≡ hint_key m → entry_matches (hint_key n) (hint_key m) ≡ true
eq_same n m h = (entry_matches_iff (hint_key n) (hint_key m) (proper n) (proper m)).0.1 h

symm :
    (n m : HintName) (b c : Bool)
    → entry_matches (hint_key n) (hint_key m) ≡ b
    → entry_matches (hint_key m) (hint_key n) ≡ c
    → b ≡ c
symm n m true true p q = refl
symm n m false false p q = refl
symm n m true false p q = cc (eq_same m n (sym (same_eq n m p)))
symm n m false true p q = cc (eq_same n m (sym (same_eq m n q)))

-- The callbacks of a hint are those of a key.
pub hint-IsKey : IsKey Hint
hint-IsKey = record {
  matches_refl = λ a. eq_same a.name a.name refl;
  matches_symm = λ a b. symm a.name b.name _ _ refl refl;
  matches_trans =
      λ a b c p q. eq_same a.name c.name (same_eq a.name b.name p ∙ same_eq b.name c.name q);
  hash_matches = λ a b p. ap (λ (k : HintKey). hash_of (entry_hash k)) (same_eq a.name b.name p);
}

-- The hint that a name stands for.
unfoldable pub held : HintDictionary → HintName → Option Hint
held d name = hint_of (view d.hashtable (dummy name))

-- Two names with the same key.
abbrev pub matches : HintName → HintName → Bool
matches n m = entry_matches (hint_key n) (hint_key m)

hint_of-hit : (o : Option (Hashkey Hint)) → hint_of (Option.map hit o) ≡ hint_of o
unfolding hint_of
hint_of-hit none = refl
hint_of-hit (some e) = refl

hint_of-if :
    (b : Bool) (o q : Option (Hashkey Hint))
    → hint_of (if b then o else q) ≡ (if b then hint_of o else hint_of q)
hint_of-if true o q = refl
hint_of-if false o q = refl

module _ (d : HintDictionary) (v : IsValid d.hashtable) where
  -- A hint that is put stands for its name, and the other names stand for what they did.
  pub put-held :
      (hint : Hint)
      → (d' : HintDictionary) × (put d hint ≡ some d')
        × IsValid d'.hashtable
        × ((q : HintName) → held d' q ≡ (if matches q hint.name then some hint else held d q))
  unfolding put with_table held hint_of
  put-held hint =
      let (table, run, valid, answers) = insert-Answers hint-IsKey d.hashtable v hint in
      (
        record { hashtable = table; allocator = d.allocator },
        rw (put, run),
        valid,
        λ q. ap hint_of (answers (dummy q)) ∙ hint_of-if (matches q hint.name) _ _,
      )

  -- A lookup gives the hint that the name stands for, and every name keeps its hint.
  pub get-held :
      (name : HintName)
      → (d' : HintDictionary) × (get d name ≡ some (held d name, d'))
        × IsValid d'.hashtable
        × ((q : HintName) → held d' q ≡ (if matches q name then held d name else held d q))
  unfolding get fetched held
  get-held name =
      let (table, run, valid, answers) = fetch-Answers hint-IsKey d.hashtable v (dummy name) in
      (
        record { hashtable = table; allocator = d.allocator },
        rw (get, run, hint_of-hit (view d.hashtable (dummy name))),
        valid,
        λ q.
            ap hint_of (answers (dummy q))
            ∙ hint_of-if (matches q name) _ _
            ∙ rw (hint_of-hit (view d.hashtable (dummy name))),
      )

-- In a dictionary over a valid table: after a hint is put, a lookup by a name or by an entrance
-- gives that hint where the key is the same, and else what it gave before.
pub put-get :
    (d : HintDictionary)
    → IsValid d.hashtable
    → (hint : Hint) (name : HintName)
    → (put_in got : HintDictionary) × (put d hint ≡ some put_in)
      × (get put_in name ≡ some (if matches name hint.name then some hint else held d name, got))
      × IsValid got.hashtable
put-get d v hint name =
    let (d₁, put_run, v₁, stands) = put-held d v hint in
    let (d₂, get_run, v₂, _) = get-held d₁ v₁ name in
    (d₁, d₂, put_run, get_run ∙ rw (stands name), v₂)

-- A new dictionary, where both allocations succeed and the capacity is above 0, holds no hint.
pub init-empty :
    (capacity allocator : ℕ)
    → 0 < capacity
    → (d : HintDictionary) × (init true true capacity allocator ≡ some d)
      × IsValid d.hashtable
      × ((q : HintName) → held d q ≡ none)
unfolding init with_table held hint_of
init-empty capacity allocator h =
    let (table, run, valid, empty) = new-IsValid {K = Hint} true capacity h in
    (
      record { hashtable = table; allocator = allocator },
      rw run,
      valid,
      λ q. ap hint_of (empty (dummy q)),
    )
