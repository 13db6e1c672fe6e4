-- ===== src/P7r/StackHint/Order.antt =====
-- p7r_stack_allocate_hintless: the providers in the order of the policy.
use servcraft.Prelude.{
  ℕ, ◌+◌, ◌<◌, ◌^◌, ◌≡◌, ◌≢◌, ◌∙◌, ◌⊎◌, inl, inr, Bool-cases, ==_iff, ◌==◌, Option, some,
}
use servcraft.P7r.StackPage.{Metamark, long_term, short_term}
use servcraft.P7r.StackPage.Laws.{page_allocate-Taken}
use servcraft.P7r.StackAllocator.{Allocator, total, free}
use servcraft.P7r.StackAllocator.Invariant.{IsAllocator, IsConfig}
use servcraft.P7r.StackAllocator.Allocation.{
  FromMaster, FromSlave, allocate_fallback-Served, page_allocate_empty, with_long, with_short,
}
use servcraft.P7r.StackHint.{from_fallback, from_eden, from_prudent, allocate_hintless}

module _ (a : Allocator) (v : IsAllocator a) (k : IsConfig a.properties) (address zone : ℕ)
    (room : a.n_slaves + 1 < 2 ^ 32) (short_self : a.short_term.self ≡ short_term) where
  -- The short term zone while it has a free stack, then the slaves.
  abbrev pub ShortThenSlaves : Option (Option Metamark × Allocator) → Type 0
  ShortThenSlaves r =
      FromMaster a v k address zone room a.short_term (λ p. record a { short_term = p }) r
      ⊎ FromSlave a v k address zone room a.short_term.size r

  eden_order : ShortThenSlaves (from_eden (some address) (some zone) a)
  unfolding from_eden from_fallback free
  eden_order = elim (Bool-cases (a.short_term.size == 0)) [
    | inl none_left ↦ inr (
      (==_iff _ _).0 none_left,
      rw (from_eden, page_allocate_empty (total a) a.short_term none_left)
          (allocate_fallback-Served a v k address zone room),
    )
    | inr left ↦
        let ne : a.short_term.size ≢ 0 = λ z. cc ((==_iff _ _).1 z) in
        let (m, p, run, size, _, same, v', back, owner) =
          page_allocate-Taken (total a) a.short_term v.positive v.short ne in
        inl (
          ne,
          m,
          p,
          rw (from_eden, run),
          size,
          with_short a v k address zone room p v',
          rw (free, owner ∙ short_self, back),
        )
  ]

  -- In an allocator in order with room for a new slave: with the policy EDEN a stack comes from the
  -- short term zone while it has one free, then from a slave; with PRUDENT, which is also DEFAULT, the long term zone is tried before.
  pub allocate_hintless-order :
      a.long_term.self ≡ long_term
      → ShortThenSlaves (allocate_hintless (some address) (some zone) a 1)
        × (FromMaster a v k address zone room a.long_term
              (λ p. record a { long_term = p })
              (allocate_hintless (some address) (some zone) a 0)
            ⊎ ((a.long_term.size ≡ 0)
                × ShortThenSlaves (allocate_hintless (some address) (some zone) a 0)))
  unfolding allocate_hintless from_prudent free
  allocate_hintless-order long_self = (
    eden_order,
    elim (Bool-cases (a.long_term.size == 0)) [
      | inl none_left ↦ inr (
        (==_iff _ _).0 none_left,
        rw (from_prudent, page_allocate_empty (total a) a.long_term none_left) eden_order,
      )
      | inr left ↦
          let ne : a.long_term.size ≢ 0 = λ z. cc ((==_iff _ _).1 z) in
          let (m, p, run, size, _, same, v', back, owner) =
            page_allocate-Taken (total a) a.long_term v.positive v.long ne in
          inl (
            ne,
            m,
            p,
            rw (from_prudent, run),
            size,
            with_long a v k address zone room p v',
            rw (free, owner ∙ long_self, back),
          )
    ],
  )
