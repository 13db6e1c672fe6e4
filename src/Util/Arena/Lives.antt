-- ===== src/Util/Arena/Lives.antt =====
-- util/scraft_arena.c: which elements are in use, over any sequence of calls by any threads.
use mathlib.Core.Path.{subst}
use servcraft.Prelude.{
  ℕ, ◌+◌, ◌%◌, ◌≤◌, ◌<◌, ◌≡◌, ◌≢◌, refl, ap, Bool, true, Option, none, some, List, [], ◌∷◌, ◌++◌,
  arith, ◌==◌, Bool-cases, inl, inr, ==_iff, some_eq, count, count-append, count-erase, erase,
  update,
}
use servcraft.Util.Arena.{Arena, get_from, get, release, filled}
use servcraft.Util.Arena.Start.{count-fill}

-- An element is in use once or stands in one slot once, at most; those in a slot are cached, and they
-- and the cached ones in use are of the array that was filled.
pub record IsSound (a : Arena) (live : List ℕ) : Type 0 where
  pub apart : (x t : ℕ) → count x live + count x (a.slots t) ≤ 1
  pub single : (x t u : ℕ) → t ≢ u → count x (a.slots t) + count x (a.slots u) ≤ 1
  pub kept : (x t : ℕ) → 0 < count x (a.slots t) → a.cached x ≡ true
  pub inside : (x t : ℕ) → 0 < count x (a.slots t) → x < a.n_elements
  pub own : (x : ℕ) → 0 < count x live → a.cached x ≡ true → x < a.n_elements

abbrev pub Given : List ℕ → Arena × Option ℕ → Type 0
Given live (b, none) = IsSound b live
Given live (b, some x) = IsSound b (x ∷ live)

-- What the root allocator gives is not in use, nor inside the array of the arena, as malloc has it
-- while that array is allocated.
abbrev pub IsNew : Option ℕ → List ℕ → Arena → Type 0
IsNew none live a = Unit
IsNew (some x) live a = (a.n_elements ≤ x) × (count x live ≡ 0)

pub get_undefined :
    (token : ℕ) (heap : Option ℕ) (a : Arena) → get token heap a ≡ none → a.n_slots ≡ 0
unfolding get
get_undefined token heap a q = elim (Bool-cases (a.n_slots == 0)) [
  | inl nil ↦ (==_iff a.n_slots 0).0 nil
  | inr some_slots ↦ cc (rw some_slots at q)
]

module _ {a : Arena} {live : List ℕ} (sound : IsSound a live) where
  open sound use {apart, single, kept, inside, own}

  get_from-IsSound :
      (target : ℕ) (xs : List ℕ) (heap : Option ℕ)
      → xs ≡ a.slots target
      → IsNew heap live a
      → Given live (get_from target xs heap a)
  unfolding get_from
  get_from-IsSound target (x ∷ xs) heap e new = record {
    apart = λ y t.
        ground
          (arith, apart y t, apart y target, single y target t, ap (count y) e, ==_iff target t);
    single =
        λ y t u h. ground (arith, single y t u h, ap (count y) e, ==_iff target t, ==_iff target u);
    kept = λ y t h. ground (arith, kept y t, kept y target, ap (count y) e, ==_iff target t);
    inside = λ y t h. ground (arith, inside y t, inside y target, ap (count y) e, ==_iff target t);
    own = λ y h c. ground (arith, own y, inside y target, ap (count y) e, ==_iff x y);
  }
  get_from-IsSound target [] none e new = sound
  get_from-IsSound target [] (some x) e new = record {
    apart = λ y t. ground (arith, apart y t, new.0, new.1, inside y t, ==_iff x y);
    single = single;
    kept = λ y t h. ground (arith, kept y t, new.0, inside y t, ==_iff x y);
    inside = inside;
    own = λ y h c. ground (arith, own y, ==_iff x y);
  }

  pub get-IsSound :
      (token : ℕ) (heap : Option ℕ) {r : Arena × Option ℕ}
      → IsNew heap live a
      → get token heap a ≡ some r
      → Given live r
  unfolding get
  get-IsSound token heap new q = elim (Bool-cases (a.n_slots == 0)) [
    | inl nil ↦ cc (rw nil at q)
    | inr some_slots ↦
        subst (Given live) (some_eq (rw some_slots at q))
          (get_from-IsSound (token % a.n_slots) (a.slots (token % a.n_slots)) heap refl new)
  ]

  kept-IsSound :
      (target x : ℕ)
      → 0 < count x live
      → a.cached x ≡ true
      → IsSound
          (record a { slots = update a.slots target (a.slots target ++ x ∷ []) })
          (erase x live)
  kept-IsSound target x h c = record {
    apart = λ y t. ground (
      arith,
      apart y t,
      h,
      count-erase y x live,
      count-append y (a.slots target) (x ∷ []),
      ==_iff target t,
      ==_iff x y,
    );
    single = λ y t u q. ground (
      arith,
      single y t u q,
      apart y t,
      apart y u,
      h,
      count-append y (a.slots target) (x ∷ []),
      ==_iff target t,
      ==_iff target u,
      ==_iff x y,
    );
    kept = λ y t q.
        ground (
          arith,
          kept y t,
          c,
          count-append y (a.slots target) (x ∷ []),
          ==_iff target t,
          ==_iff x y,
        );
    inside = λ y t q. ground (
      arith,
      inside y t,
      own x h c,
      count-append y (a.slots target) (x ∷ []),
      ==_iff target t,
      ==_iff x y,
    );
    own = λ y q d. own y (ground (arith, q, count-erase y x live)) d;
  }

  release-IsSound :
      (token x : ℕ) {b : Arena}
      → 0 < count x live
      → release token x a ≡ some b
      → IsSound b (erase x live)
  unfolding release
  release-IsSound token x {b} h q = elim (Bool-cases (a.cached x)) [
    | inl c ↦ elim (Bool-cases (a.n_slots == 0)) [
      | inl nil ↦ cc (rw (c, nil) at q)
      | inr some_slots ↦
          subst (λ (b : Arena). IsSound b (erase x live)) (some_eq (rw (c, some_slots) at q))
            (kept-IsSound (token % a.n_slots) x h c)
    ]
    | inr other ↦
        subst (λ (b : Arena). IsSound b (erase x live)) (some_eq (rw other at q))
          record {
            apart = λ y t. ground (arith, apart y t, count-erase y x live);
            single = single;
            kept = kept;
            inside = inside;
            own = λ y h d. own y (ground (arith, h, count-erase y x live)) d;
          }
  ]

-- A call by a thread with a token: get with an element or null, or release of an element in use.
pub data Step (a : Arena) (live : List ℕ) : Arena → List ℕ → Type 0 where
  gets :
      (token : ℕ) (heap : Option ℕ) (x : ℕ) {b : Arena}
      → IsNew heap live a
      → get token heap a ≡ some (b, some x)
      → Step a live b (x ∷ live)
  refuses :
      (token : ℕ) (heap : Option ℕ) {b : Arena}
      → IsNew heap live a
      → get token heap a ≡ some (b, none)
      → Step a live b live
  releases :
      (token x : ℕ) {b : Arena}
      → 0 < count x live
      → release token x a ≡ some b
      → Step a live b (erase x live)

Step-IsSound :
    {a b : Arena} {live held : List ℕ} → Step a live b held → IsSound a live → IsSound b held
Step-IsSound (gets token heap x new e) sound = get-IsSound sound token heap new e
Step-IsSound (refuses token heap new e) sound = get-IsSound sound token heap new e
Step-IsSound (releases token x h e) sound = release-IsSound sound token x h e

-- The states after calls of any threads, with the elements in use.
pub data Reach (start : Arena) : Arena → List ℕ → Type 0 where
  here : Reach start start []
  later :
      {a b : Arena} {live held : List ℕ}
      → Step a live b held
      → Reach start a live
      → Reach start b held

filled-IsSound :
    (n_elements n_slots : ℕ) (cached : ℕ → Bool) → IsSound (filled n_elements n_slots cached) []
unfolding filled
filled-IsSound n_elements n_slots cached = record {
  apart = λ x t. ground (arith, count-fill n_slots n_elements x t);
  single = λ x t u h. ground (
    arith,
    count-fill n_slots n_elements x t,
    count-fill n_slots n_elements x u,
    ==_iff (x % n_slots) t,
    ==_iff (x % n_slots) u,
  );
  kept = λ x t h. ground (arith, count-fill n_slots n_elements x t);
  inside = λ x t h. ground (arith, h, count-fill n_slots n_elements x t);
  own = λ x h c. absurd (omega (arith, h));
}

Reach-from :
    {start a : Arena} {live : List ℕ} → IsSound start [] → Reach start a live → IsSound a live
Reach-from s here = s
Reach-from s (later step r) = Step-IsSound step (Reach-from s r)

pub filled-Reach :
    (n_elements n_slots : ℕ) (cached : ℕ → Bool) {a : Arena} {live : List ℕ}
    → Reach (filled n_elements n_slots cached) a live
    → IsSound a live
filled-Reach n_elements n_slots cached r = Reach-from (filled-IsSound n_elements n_slots cached) r
