-- ===== src/Util/Arena/Start.antt =====
-- util/scraft_arena.c: where the elements stand after scraft_arena_init, and which of them a thread
-- can get.

use servcraft.Prelude.{
  ℕ, zero, suc, ◌%◌, ◌≡◌, ap, refl, Bool, true, false, ◌&&◌, not, Option, none, some, List, [], ◌∷◌,
  arith, ◌==◌, ltb, if◌then◌else◌, Bool-cases, inl, inr, ==_iff, count, count-append,
}
use servcraft.Util.Arena.{
  Arena, Block, guards, elements, slots, Init, ready, failed, fill, filled, init, try_default_token,
}

-- Each element stands once, in the slot of its index.
pub count-fill :
    (n_slots n x t : ℕ)
    → count x (fill n_slots n (λ _. []) t) ≡ (if ltb x n && (x % n_slots == t) then 1 else 0)
unfolding fill
count-fill n_slots zero x t = ground arith
count-fill n_slots (suc n) x t = elim (Bool-cases (n % n_slots == t)) [
  | inl here ↦
      rw (here, (==_iff (n % n_slots) t).0 here)
        (ground (
          arith,
          count-append x (fill n_slots n (λ _. []) t) (n ∷ []),
          count-fill n_slots n x t,
          ==_iff n x,
        ))
  | inr other ↦ rw other (ground (arith, count-fill n_slots n x t, ==_iff n x))
]

-- What a successful start leaves: each element below n_elements once, in the slot of its index by
-- n_slots, and marked as cached. The three arrays that it works on are given back to the
-- allocator before it returns.
abbrev pub Started : ℕ → ℕ → Arena → List Block → Type 0
Started n_elements n_slots a blocks =
    (blocks ≡ slots ∷ elements ∷ guards ∷ [])
    × (a.n_slots ≡ n_slots)
    × ((x t : ℕ) → count x (a.slots t) ≡ (if ltb x n_elements && (x % n_slots == t) then 1 else 0))
    × ((x : ℕ) → (if ltb x n_elements then a.cached x else true) ≡ true)

-- What the call comes to, by the outcomes of the allocations.
abbrev pub Outcome : ℕ → ℕ → Bool → Bool → Bool → Option Init → Type 0
Outcome n_elements n_slots has_guards has_elements has_slots none =
    (has_guards && has_elements && not ((n_slots == 0) && ltb 0 n_elements)) ≡ false
Outcome n_elements n_slots has_guards has_elements has_slots (some (failed blocks)) =
    (has_guards ≡ true)
    × (has_elements ≡ true)
    × (has_slots ≡ false)
    × (blocks ≡ elements ∷ guards ∷ [])
Outcome n_elements n_slots has_guards has_elements has_slots (some (ready a blocks)) =
    Started n_elements n_slots a blocks

-- scraft_arena_init is undefined only where the guards or the elements cannot be allocated, when a
-- cleanup reads a pointer that has no value, or where there are elements and no slots, when it
-- divides by zero; it returns -1 only where the slots alone cannot be allocated, and frees the other
-- two arrays; and where it succeeds, each element below n_elements stands once, in the slot of its
-- index, and is marked as cached, but all three arrays have been given back to the allocator.
pub init-Outcome :
    (n_elements n_slots : ℕ) (cached : ℕ → Bool) (has_guards has_elements has_slots : Bool)
    → Outcome n_elements n_slots has_guards has_elements has_slots
        (init n_elements n_slots cached has_guards has_elements has_slots)
unfolding init filled
init-Outcome n_elements n_slots cached false has_elements has_slots = refl
init-Outcome n_elements n_slots cached true false has_slots = refl
init-Outcome n_elements n_slots cached true true false = (refl, refl, refl, refl)
init-Outcome n_elements n_slots cached true true true =
    elim (Bool-cases ((n_slots == 0) && ltb 0 n_elements)) [
      | inl divides ↦ rw divides (ap not divides)
      | inr fine ↦ rw fine (refl, refl, λ x t. count-fill n_slots n_elements x t, λ x. ground arith)
    ]

-- The token of a thread never becomes another one.
pub token_stays : (token shared : ℕ) → try_default_token token shared ≡ (token, shared)
unfolding try_default_token
token_stays token shared = ground arith
