-- ===== src/P7r/StackHint.antt =====
-- p7r/p7r_stack_hint.c: stacks by policy, with statistics, and the hint as the key of a hash table.
-- The statistics of the execution time are copied, never read: their type T is a parameter.
pub mod Policy
pub mod Order
pub mod Keys
use Prim.Native.Nat.{bit_xor}
use servcraft.Prelude.{
  ℕ, ◌+◌, ◌*◌, ◌/◌, ◌%◌, ◌^◌, Bool, true, false, ◌&&◌, Option, none, some, List, [], ◌∷◌, ◌==◌, ltb,
  if◌then◌else◌,
}
use servcraft.Util.Hashtable.{djb_cstring, u64}
use servcraft.P7r.StackPage.{u32, Metamark, page_allocate}
use servcraft.P7r.StackAllocator.{Allocator, total, allocate_fallback}

-- struct p7r_hint_failure_stat.
pub record FailureStat : Type 0 where
  pub measure_limit : ℕ
  pub measure_total : ℕ
  pub measure_failed : ℕ

-- struct p7r_stack_hint_config.
pub record HintConfig {ℓ} (T : Type ℓ) : Type ℓ where
  pub execution_time_stat : T
  pub failure_stat : FailureStat

-- The key of struct p7r_stack_hint: two pointers, none for NULL. A name is its bytes before the 0.
pub record HintKey : Type 0 where
  pub solid_entrance : Option ℕ
  pub name : Option (List ℕ)

-- struct p7r_stack_hint.
pub record StackHint {ℓ} (T : Type ℓ) : Type ℓ where
  pub key : HintKey
  pub execution_time_stat : T
  pub failure_stat : FailureStat
  pub policy : ℕ

-- P7R_STACK_POLICY_DEFAULT, _EDEN and _PRUDENT.
abbrev pub policy_default : ℕ
policy_default = 0

abbrev pub policy_eden : ℕ
policy_eden = 1

abbrev pub policy_prudent : ℕ
policy_prudent = 0

module _ {ℓ} {T : Type ℓ} where
  unfoldable pub init_by_name : Option (List ℕ) → HintConfig T → StackHint T
  init_by_name name config = record {
    key = record { solid_entrance = none; name = name };
    execution_time_stat = config.execution_time_stat;
    failure_stat = config.failure_stat;
    policy = policy_default;
  }

  unfoldable pub init_by_entrance : Option ℕ → HintConfig T → StackHint T
  init_by_entrance entrance config = record {
    key = record { solid_entrance = entrance; name = none };
    execution_time_stat = config.execution_time_stat;
    failure_stat = config.failure_stat;
    policy = policy_default;
  }

-- The three labels of the switch in p7r_stack_allocate_hintless, each falling through to the next.
unfoldable pub from_fallback :
    (allocated mapped : Option ℕ) → Allocator → Option (Option Metamark × Allocator)
from_fallback allocated mapped a = allocate_fallback allocated mapped a

unfoldable pub from_eden :
    (allocated mapped : Option ℕ) → Allocator → Option (Option Metamark × Allocator)
from_eden allocated mapped a = elim (page_allocate (total a) a.short_term) [
  | none ↦ none
  | some (some m, p) ↦ some (some m, record a { short_term = p })
  | some (none, p) ↦ from_fallback allocated mapped (record a { short_term = p })
]

unfoldable pub from_prudent :
    (allocated mapped : Option ℕ) → Allocator → Option (Option Metamark × Allocator)
from_prudent allocated mapped a = elim (page_allocate (total a) a.long_term) [
  | none ↦ none
  | some (some m, p) ↦ some (some m, record a { long_term = p })
  | some (none, p) ↦ from_eden allocated mapped (record a { long_term = p })
]

unfoldable pub allocate_hintless :
    (allocated mapped : Option ℕ) → Allocator → (policy : ℕ) → Option (Option Metamark × Allocator)
allocate_hintless allocated mapped a policy =
    if policy == policy_prudent
    then from_prudent allocated mapped a
    else if policy == policy_eden
    then from_eden allocated mapped a
    else from_fallback allocated mapped a

module _ {ℓ} {T : Type ℓ} where
  -- The first statement of p7r_stack_allocate_with_hint, and its last.
  unfoldable pub measured : StackHint T → StackHint T
  measured hint =
      if ltb hint.failure_stat.measure_total hint.failure_stat.measure_limit
      then record hint {
        failure_stat = record hint.failure_stat {
          measure_total = u32 (hint.failure_stat.measure_total + 1);
        };
      }
      else hint

  unfoldable pub failed : (failure : ℕ) → StackHint T → StackHint T
  failed failure hint = record hint {
    failure_stat = record hint.failure_stat {
      measure_failed = u32 (hint.failure_stat.measure_failed + (if ltb 0 failure then 1 else 0));
    };
  }

  -- The labels of the switch in p7r_stack_allocate_with_hint, with the failures so far.
  unfoldable pub hint_fallback :
      (allocated mapped : Option ℕ)
      → Allocator
      → StackHint T
      → (failure : ℕ) → Option (Option Metamark × Allocator × StackHint T)
  hint_fallback allocated mapped a hint failure = elim (allocate_fallback allocated mapped a) [
    | none ↦ none
    | some (o, a') ↦ some (o, a', failed failure hint)
  ]

  unfoldable pub hint_eden :
      (allocated mapped : Option ℕ)
      → Allocator
      → StackHint T
      → (failure : ℕ) → Option (Option Metamark × Allocator × StackHint T)
  hint_eden allocated mapped a hint failure = elim (page_allocate (total a) a.short_term) [
    | none ↦ none
    | some (some m, p) ↦ some (some m, record a { short_term = p }, hint)
    | some (none, p) ↦
        hint_fallback allocated mapped (record a { short_term = p }) hint (failure + 1)
  ]

  unfoldable pub hint_prudent :
      (allocated mapped : Option ℕ)
      → Allocator
      → StackHint T
      → (failure : ℕ) → Option (Option Metamark × Allocator × StackHint T)
  hint_prudent allocated mapped a hint failure = elim (page_allocate (total a) a.long_term) [
    | none ↦ none
    | some (some m, p) ↦ some (some m, record a { long_term = p }, hint)
    | some (none, p) ↦ hint_eden allocated mapped (record a { long_term = p }) hint (failure + 1)
  ]

  unfoldable pub allocate_with_hint :
      (allocated mapped : Option ℕ)
      → Allocator
      → StackHint T
      → Option (Option Metamark × Allocator × StackHint T)
  allocate_with_hint allocated mapped a hint =
      if hint.policy == policy_prudent
      then hint_prudent allocated mapped a (measured hint) 0
      else if hint.policy == policy_eden
      then hint_eden allocated mapped a (measured hint) 0
      else hint_fallback allocated mapped a (measured hint) 0

-- voidptr_hashing where a pointer has 64 bits.
unfoldable pub uint64_hashing : ℕ → ℕ
uint64_hashing key =
    let key₁ = u64 (bit_xor key (key / 2 ^ 30) * 0xbf58476d1ce4e5b9) in
    let key₂ = u64 (bit_xor key₁ (key₁ / 2 ^ 37) * 0x94d049bb133111eb) in
    bit_xor key₂ (key₂ / 2 ^ 31)

-- p7r_stack_hint_entry_hash; none where the djb hash would read from NULL.
unfoldable pub entry_hash : HintKey → Option ℕ
entry_hash k = elim k.solid_entrance [
  | some entrance ↦ some (uint64_hashing entrance)
  | none ↦ elim k.name [ none ↦ none | some name ↦ some (djb_cstring name) ]
]

-- strcmp(a, b) == 0.
unfoldable pub same_name : List ℕ → List ℕ → Bool
same_name [] [] = true
same_name (c ∷ cs) (d ∷ ds) = (c == d) && same_name cs ds
same_name _ _ = false

-- p7r_stack_hint_entry_compare(a, b) == 0: two entrances, else two names, else -1.
unfoldable pub compare_names : (lhs rhs : Option (List ℕ)) → Bool
compare_names (some n) (some m) = same_name n m
compare_names _ _ = false

unfoldable pub compare_entrances : (lhs rhs : Option ℕ) → (otherwise : Bool) → Bool
compare_entrances (some p) (some q) otherwise = p == q
compare_entrances _ _ otherwise = otherwise

unfoldable pub entry_matches : HintKey → HintKey → Bool
entry_matches lhs rhs =
    compare_entrances lhs.solid_entrance rhs.solid_entrance (compare_names lhs.name rhs.name)
