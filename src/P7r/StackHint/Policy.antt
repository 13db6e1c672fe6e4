-- ===== src/P7r/StackHint/Policy.antt =====
-- What the policies come to.
use servcraft.Prelude.{
  ℕ, ◌+◌, ◌<◌, ◌^◌, ◌%◌, ltb, ◌≡◌, ◌∙◌, ap, refl, Bool, true, false, ◌&&◌, Option, none, some,
  arith, ◌==◌, if◌then◌else◌, inl, inr, Bool-cases, Option-cases, [], ◌∷◌, ◌⊎◌,
}
use servcraft.P7r.StackPage.{Metamark, Provider, page_allocate, u32, sub32}
use servcraft.P7r.StackAllocator.{Allocator, total, allocate_fallback}
use servcraft.P7r.StackHint.{
  StackHint, policy_eden, policy_prudent, from_fallback, from_eden, from_prudent, allocate_hintless,
  measured, failed, hint_fallback, hint_eden, hint_prudent, allocate_with_hint,
}

-- The providers that the policy tries before the slaves have no page left.
unfoldable pub used_up : Allocator → (policy : ℕ) → Bool
used_up a policy =
    if policy == policy_prudent
    then (a.long_term.size == 0) && (a.short_term.size == 0)
    else (policy == policy_eden) && (a.short_term.size == 0)

-- A page allocation goes wrong, is refused where no page is left, or hands out a stack.
abbrev PageCases : ℕ → Provider → Type 0
PageCases n p =
    (page_allocate n p ≡ none)
    ⊎ (((p.size == 0) ≡ true) × (page_allocate n p ≡ some (none, p)))
    ⊎ (((p.size == 0) ≡ false)
        × (m : Metamark) × (p' : Provider) × (page_allocate n p ≡ some (some m, p')))

page_cases : (n : ℕ) (p : Provider) → PageCases n p
unfolding page_allocate
page_cases n p = elim (Bool-cases (p.size == 0)) [
  | inl z ↦ inr (inl (z, rw (page_allocate, z)))
  | inr nz ↦
      elim p.pages as (λ ms. p.pages ≡ ms → PageCases n p) [
        | [] ↦ λ e. inl (rw (page_allocate, nz, e))
        | m ∷ ms ↦ λ e. inr (
            inr (
              nz,
              record m { n_bytes_page = p.n_bytes_page },
              record p { size = sub32 p.size n; pages = ms },
              rw (page_allocate, nz, e),
            ))
      ]
        refl
]

module _ {ℓ} {T : Type ℓ} (allocated mapped : Option ℕ) where
  -- The outcome of an allocation without a hint, with the hint beside it.
  abbrev pub alongside :
      Option (Option Metamark × Allocator)
      → StackHint T
      → Option (Option Metamark × Allocator × StackHint T)
  alongside none hint = none
  alongside (some (o, a)) hint = some (o, a, hint)

  fallback_lem :
      (a : Allocator) (hint : StackHint T) (failure : ℕ)
      → hint_fallback allocated mapped a hint failure
        ≡ alongside (from_fallback allocated mapped a) (failed failure hint)
  unfolding hint_fallback from_fallback
  fallback_lem a hint failure = elim (Option-cases (allocate_fallback allocated mapped a)) [
    | inl e ↦ rw (hint_fallback, e)
    | inr (x, e) ↦ rw (hint_fallback, e)
  ]

  eden_lem :
      (a : Allocator) (hint : StackHint T) (failure : ℕ)
      → hint_eden allocated mapped a hint failure
        ≡ alongside
            (from_eden allocated mapped a)
            (if a.short_term.size == 0 then failed (failure + 1) hint else hint)
  unfolding hint_eden from_eden
  eden_lem a hint failure = elim (page_cases (total a) a.short_term) [
    | inl e ↦ rw (hint_eden, from_eden, e)
    | inr (inl (z, e)) ↦ rw (z, hint_eden, from_eden, e) (fallback_lem a hint (failure + 1))
    | inr (inr (nz, m, p, e)) ↦ rw (nz, hint_eden, from_eden, e)
  ]

  prudent_lem :
      (a : Allocator) (hint : StackHint T)
      → hint_prudent allocated mapped a hint 0
        ≡ alongside
            (from_prudent allocated mapped a)
            (if (a.long_term.size == 0) && (a.short_term.size == 0) then failed 2 hint else hint)
  unfolding hint_prudent from_prudent
  prudent_lem a hint = elim (page_cases (total a) a.long_term) [
    | inl e ↦ rw (hint_prudent, from_prudent, e)
    | inr (inl (z, e)) ↦ rw (z, hint_prudent, from_prudent, e) (eden_lem a hint 1)
    | inr (inr (nz, m, p, e)) ↦ rw (nz, hint_prudent, from_prudent, e)
  ]

  -- The hint with one more measured, below its limit, and one more failed where the allocator has
  -- used up what the policy tries first.
  abbrev pub settled : Allocator → StackHint T → StackHint T
  settled a hint =
      let total = hint.failure_stat.measure_total in
      let limit = hint.failure_stat.measure_limit in
      record hint {
        failure_stat = record {
          measure_limit = limit;
          measure_total = if ltb total limit then (total + 1) % 2 ^ 32 else total;
          measure_failed =
              (hint.failure_stat.measure_failed + (if used_up a hint.policy then 1 else 0))
              % 2 ^ 32;
        };
      }

  settled_lem :
      (a : Allocator) (hint : StackHint T)
      → hint.failure_stat.measure_failed < 2 ^ 32
      → (if used_up a hint.policy then failed 1 (measured hint) else measured hint) ≡ settled a hint
  unfolding measured failed
  settled_lem a hint h =
      let e : (hint.failure_stat.measure_failed + 0) % 2 ^ 32 ≡ hint.failure_stat.measure_failed =
        omega arith in
      elim (Bool-cases (ltb hint.failure_stat.measure_total hint.failure_stat.measure_limit)) [
        | inl more ↦ elim (Bool-cases (used_up a hint.policy)) [
          | inl u ↦ rw (u, more) refl
          | inr v ↦ rw (v, more, e) refl
        ]
        | inr full ↦ elim (Bool-cases (used_up a hint.policy)) [
          | inl u ↦ rw (u, full) refl
          | inr v ↦ rw (v, full, e) refl
        ]
      ]

  measured_small :
      (hint : StackHint T)
      → hint.failure_stat.measure_failed < 2 ^ 32
      → (measured hint).failure_stat.measure_failed < 2 ^ 32
  unfolding measured
  measured_small hint h =
      elim (Bool-cases (ltb hint.failure_stat.measure_total hint.failure_stat.measure_limit)) [
        | inl more ↦ rw more h
        | inr full ↦ rw full h
      ]

  failed_none :
      (hint : StackHint T) → hint.failure_stat.measure_failed < 2 ^ 32 → failed 0 hint ≡ hint
  unfolding failed
  failed_none hint h =
      let e : u32 (hint.failure_stat.measure_failed + 0) ≡ hint.failure_stat.measure_failed =
        omega arith in
      λ i. record hint { failure_stat = record hint.failure_stat { measure_failed = e i } }

  with_hint_lem :
      (a : Allocator) (hint : StackHint T)
      → hint.failure_stat.measure_failed < 2 ^ 32
      → allocate_with_hint allocated mapped a hint
        ≡ alongside
            (allocate_hintless allocated mapped a hint.policy)
            (if used_up a hint.policy then failed 1 (measured hint) else measured hint)
  unfolding allocate_with_hint allocate_hintless used_up failed
  with_hint_lem a hint h = elim (Bool-cases (hint.policy == 0)) [
    | inl prudent ↦ rw prudent (prudent_lem a (measured hint))
    | inr other ↦ elim (Bool-cases (hint.policy == 1)) [
      | inl eden ↦ rw (other, eden) (eden_lem a (measured hint) 0)
      | inr last ↦
          rw (other, last)
            (fallback_lem a (measured hint) 0
              ∙ ap (alongside (from_fallback allocated mapped a))
                  (failed_none (measured hint) (measured_small hint h)))
    ]
  ]

  -- A hint changes no allocation: the outcome is that of its policy without the hint, a fault
  -- included. Where there is an outcome, measure_total goes up by one while it is below its limit, and
  -- measure_failed just where the providers that the policy tries before the slaves, one at least, are
  -- all used up; nothing else of the hint changes. measure_failed is below 2 ^ 32.
  pub allocate_with_hint-hintless :
      (a : Allocator) (hint : StackHint T)
      → hint.failure_stat.measure_failed < 2 ^ 32
      → allocate_with_hint allocated mapped a hint
        ≡ alongside (allocate_hintless allocated mapped a hint.policy) (settled a hint)
  allocate_with_hint-hintless a hint h =
      with_hint_lem a hint h
      ∙ ap (alongside (allocate_hintless allocated mapped a hint.policy)) (settled_lem a hint h)
