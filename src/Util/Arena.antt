-- ===== src/Util/Arena.antt =====
-- util/scraft_arena.c: elements in slots by thread, and others of the root allocator beside them. An
-- element stands for its address, elements[i] is at i; the guard of a slot makes each operation
-- on it one step. What the allocator gives is a parameter.
pub mod Start
pub mod Lives
use servcraft.Prelude.{
  ℕ, zero, suc, ◌+◌, ◌%◌, ◌^◌, Bool, true, false, ◌&&◌, Option, none, some, List, [], ◌∷◌, ◌++◌,
  ◌==◌, ltb, if◌then◌else◌, update,
}

-- struct scraft_arena, the field cached of the elements, and the objects given back to the
-- allocator.
pub record Arena : Type 0 where
  pub n_slots : ℕ
  pub n_elements : ℕ
  pub slots : ℕ → List ℕ
  pub cached : ℕ → Bool
  pub freed : List ℕ

-- The arrays that scraft_arena_init allocates.
pub data Block : Type 0 where
  guards : Block
  elements : Block
  slots : Block

-- What scraft_arena_init returns: -1 or 0, with the arrays that its cleanups free, in their order.
pub data Init : Type 0 where
  failed : List Block → Init
  ready : Arena → List Block → Init

-- The loop over the elements, for the first n.
unfoldable pub fill : ℕ → ℕ → (ℕ → List ℕ) → ℕ → List ℕ
fill n_slots zero table = table
fill n_slots (suc n) table =
    let before = fill n_slots n table in
    update before (n % n_slots) (before (n % n_slots) ++ n ∷ [])

-- The arena after both loops.
unfoldable pub filled : ℕ → ℕ → (ℕ → Bool) → Arena
filled n_elements n_slots cached = record {
  n_slots = n_slots;
  n_elements = n_elements;
  slots = fill n_slots n_elements (λ _. []);
  cached = λ i. if ltb i n_elements then true else cached i;
  freed = [];
}

-- scraft_arena_init, for the outcomes of its three allocations. The cleanups run at every return;
-- none where one of them reads a pointer that has no value yet, or where the loop over the elements
-- divides by a number of slots that is 0.
unfoldable pub init : ℕ → ℕ → (ℕ → Bool) → Bool → Bool → Bool → Option Init
init n_elements n_slots cached false has_elements has_slots = none
init n_elements n_slots cached true false has_slots = none
init n_elements n_slots cached true true false = some (failed (elements ∷ guards ∷ []))
init n_elements n_slots cached true true true =
    if (n_slots == 0) && ltb 0 n_elements
    then none
    else some (ready (filled n_elements n_slots cached) (slots ∷ elements ∷ guards ∷ []))

-- try_default_token on the token of a thread and the shared counter, both uint32_t.
unfoldable pub try_default_token : ℕ → ℕ → ℕ × ℕ
try_default_token token shared =
    if ltb token 0 then (shared, (shared + 1) % 2 ^ 32) else (token, shared)

-- The token of a thread before its first use, -1 as a uint32_t.
abbrev pub first_token : ℕ
first_token = 4294967295

-- The first element of a slot, or one of the allocator, or null.
unfoldable pub get_from : ℕ → List ℕ → Option ℕ → Arena → Arena × Option ℕ
get_from target (x ∷ xs) heap a = (record a { slots = update a.slots target xs }, some x)
get_from target [] none a = (a, none)
get_from target [] (some x) a = (record a { cached = update a.cached x false }, some x)

-- scraft_arena_get by a thread; none where it divides by a number of slots that is 0.
unfoldable pub get : ℕ → Option ℕ → Arena → Option (Arena × Option ℕ)
get token heap a =
    let target = token % a.n_slots in
    if a.n_slots == 0 then none else some (get_from target (a.slots target) heap a)

-- scraft_arena_release by a thread.
unfoldable pub release : ℕ → ℕ → Arena → Option Arena
release token x a =
    let target = token % a.n_slots in
    let kept = record a { slots = update a.slots target (a.slots target ++ x ∷ []) } in
    if a.cached x
    then (if a.n_slots == 0 then none else some kept)
    else some (record a { freed = a.freed ++ x ∷ [] })
