-- ===== src/Tests/Hints.antt =====
-- Hints with the allocator of the module Stacks.
use servcraft.Prelude.{ℕ, ◌≡◌, none, some, [], ◌∷◌, arith}
use servcraft.P7r.StackHint.{
  HintKey, StackHint, policy_default, allocate_hintless, allocate_with_hint,
}
use servcraft.P7r.StackHint.Policy.{alongside, settled, allocate_with_hint-hintless}
use servcraft.Tests.Stacks.{busy}

abbrev by_name : HintKey
by_name = record { solid_entrance = none; name = some (97 ∷ 98 ∷ []) }

abbrev by_entrance : HintKey
by_entrance = record { solid_entrance = some 0x401000; name = none }

abbrev hint : StackHint ℕ
hint = record {
  key = by_name;
  execution_time_stat = 0;
  failure_stat = record { measure_limit = 10; measure_total = 3; measure_failed = 1 };
  policy = policy_default;
}

allocate_with_hint-hintless_example :
    allocate_with_hint (some 200) (some 0x90000) busy hint
    ≡ alongside
        (some 200)
        (some 0x90000)
        (allocate_hintless (some 200) (some 0x90000) busy 0)
        (settled (some 200) (some 0x90000) busy hint)
allocate_with_hint-hintless_example =
    allocate_with_hint-hintless (some 200) (some 0x90000) busy hint (omega arith)
