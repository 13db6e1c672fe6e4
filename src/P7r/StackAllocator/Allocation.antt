-- ===== src/P7r/StackAllocator/Allocation.antt =====
-- Allocation: which provider serves, and what the allocator is afterwards.
use servcraft.Prelude.{
  mul_mono_left, ℕ, ◌+◌, ◌^◌, ◌<◌, ◌≡◌, ◌≢◌, ◌∙◌, ◌⊎◌, inl, inr, ap, sym, refl, true, List, [], ◌∷◌,
  ◌++◌, arith, All, All-append, length, length-append, Option, some, none, ◌==◌, if◌then◌else◌,
  Bool-cases, ==_iff,
}
use mathlib.Core.Path.{subst}
use servcraft.P7r.StackPage.{
  slave_at, long_term, short_term, Config, Metamark, Provider, u32, page_allocate,
}
use servcraft.P7r.StackPage.Laws.{IsProvider, page_allocate-Taken}
use servcraft.P7r.StackAllocator.{
  Allocator, total, same_ref, replace, unlink, first_free, slave_allocation_adjust, allocate_from,
  provider_new, allocate_fallback, allocate_long_term, allocate_short_term, allocate, free,
}
use servcraft.P7r.StackAllocator.Slaves.{
  same_ref_self, IsFull, FullLast, FullLast-snoc, first_free-FullLast, first_free_full,
}
use servcraft.P7r.StackAllocator.Invariant.{
  IsSlave, IsAllocator, IsConfig, IsFresh-IsProvider, provider_new-IsFresh,
}

-- An allocation hands out a stack and keeps the invariant; the masters are as given.
pub record Served (l s : Provider) (c : Config) (r : Option (Option Metamark × Allocator))
    : Type 0 where
  pub mark : Metamark
  pub after : Allocator
  pub run : r ≡ some (some mark, after)
  pub valid : IsAllocator after
  pub long : after.long_term ≡ l
  pub short : after.short_term ≡ s
  pub config : after.properties ≡ c

adjusted : Provider → List Provider → List Provider
adjusted s rest = if s.size == 0 then rest ++ s ∷ [] else s ∷ rest

slave_allocation_adjust_head :
    (s s' : Provider) (rest : List Provider)
    → s'.self ≡ s.self
    → slave_allocation_adjust s' (replace s.self s' (s ∷ rest)) ≡ adjusted s' rest
unfolding slave_allocation_adjust adjusted replace unlink
slave_allocation_adjust_head s s' rest e =
    let self = same_ref_self s.self in
    let same : same_ref s'.self s'.self ≡ true = same_ref_self s'.self in rw (self, same)

module _ (n : ℕ) (s : Provider) (rest : List Provider) (v : IsSlave n s) (vs : All (IsSlave n) rest)
    (order : FullLast rest) where
  adjusted_lem :
      All (IsSlave n) (adjusted s rest)
      × FullLast (adjusted s rest)
      × (length (adjusted s rest) ≡ length (s ∷ rest))
  unfolding adjusted
  adjusted_lem = elim (Bool-cases (s.size == 0)) [
    | inl full ↦ rw full (
      All-append (IsSlave n) rest (s ∷ []) vs (v, tt),
      FullLast-snoc rest s order ((==_iff _ _).0 full),
      omega (arith, length-append rest (s ∷ [])),
    )
    | inr free ↦ rw free ((v, vs), (λ f. absurd (cc ((==_iff _ _).1 f)), order), refl)
  ]

pub page_allocate_empty :
    (n : ℕ) (p : Provider) → (p.size == 0) ≡ true → page_allocate n p ≡ some (none, p)
unfolding page_allocate
page_allocate_empty n p e = rw (page_allocate, e)

-- A stack from the first slave of the ring.
module _ (a : Allocator) (s : Provider) (rest : List Provider) (e : a.slaves ≡ s ∷ rest)
    (pos : 0 < total a) (long : IsProvider (total a) a.long_term)
    (short : IsProvider (total a) a.short_term) (v : IsProvider (total a) s) (ne : s.size ≢ 0)
    (vs : All (IsSlave (total a)) rest) (order : FullLast rest)
    (counted : a.n_slaves ≡ length (s ∷ rest)) (few : a.n_slaves < 2 ^ 32) where
  from_head : Served a.long_term a.short_term a.properties (allocate_from a s)
  unfolding allocate_from
  from_head =
      let (m, s', run, size, cap', self, v', _, _) = page_allocate-Taken (total a) s pos v ne in
      let (all, ordered, len) =
        adjusted_lem (total a) s' rest (v', omega (arith, size, cap', v.bound)) vs order in
      record {
        mark = m;
        after = record a { slaves = adjusted s' rest };
        run = rw (allocate_from, run, e, slave_allocation_adjust_head s s' rest self);
        valid = record {
          positive = pos;
          long = long;
          short = short;
          in_use = all;
          counted = counted ∙ sym len;
          few = few;
          ordered = ordered;
        };
        long = refl;
        short = refl;
        config = refl;
      }

-- The ring of an allocator: nothing to give, or a first slave that has a free stack.
ring_cases :
    (ss : List Provider)
    → FullLast ss
    → (first_free ss ≡ none)
      ⊎ ((s : Provider) × (rest : List Provider) × (ss ≡ s ∷ rest)
          × (first_free ss ≡ some s)
          × (s.size ≢ 0))
unfolding first_free
ring_cases [] order = inl refl
ring_cases (s ∷ rest) order = elim (Bool-cases (s.size == 0)) [
  | inl full ↦ inl (rw (first_free-FullLast s rest order) (rw full))
  | inr free ↦ inr (
    s,
    rest,
    refl,
    rw (first_free-FullLast s rest order) (rw free),
    λ z. cc ((==_iff s.size 0).1 z),
  )
]

module _ (a : Allocator) (v : IsAllocator a) (k : IsConfig a.properties) (address zone : ℕ)
    (room : a.n_slaves + 1 < 2 ^ 32) where
  -- The fallback always serves, from the first slave or from a new one.
  pub allocate_fallback-Served :
      Served a.long_term a.short_term a.properties (allocate_fallback (some address) (some zone) a)
  unfolding allocate_fallback
  allocate_fallback-Served = elim (ring_cases a.slaves v.ordered) [
    | inr (s, rest, e, found, ne) ↦
        let vs = subst (All (IsSlave (total a))) e v.in_use in
        rw (allocate_fallback, found)
          (from_head a s rest e v.positive v.long v.short vs.0.0 ne vs.1
            (subst FullLast e v.ordered).1 (v.counted ∙ ap length e) v.few)
    | inl nothing ↦
        let (s, new, f) = provider_new-IsFresh a.properties k address zone in
        let step : u32 (a.n_slaves + 1) ≡ a.n_slaves + 1 = omega arith in
        rw (allocate_fallback, nothing, new, step)
          (from_head (record a { slaves = s ∷ a.slaves; n_slaves = a.n_slaves + 1 }) s a.slaves refl
            v.positive v.long v.short
            (IsFresh-IsProvider (slave_at address) k.stacks (total a) a.properties.n_bytes_page zone
              s (omega (arith, k.whole, k.small)) f)
            (λ z. absurd (
              omega (
                arith,
                f.unused,
                f.capacity,
                k.stack,
                k.some_stack,
                mul_mono_left 1 k.stacks (total a),
              )))
            v.in_use v.ordered (omega (arith, v.counted)) room)
  ]

  pub with_long : (p : Provider) → IsProvider (total a) p → IsAllocator (record a { long_term = p })
  with_long p w = record {
    positive = v.positive;
    long = w;
    short = v.short;
    in_use = v.in_use;
    counted = v.counted;
    few = v.few;
    ordered = v.ordered;
  }

  pub with_short :
      (p : Provider) → IsProvider (total a) p → IsAllocator (record a { short_term = p })
  with_short p w = record {
    positive = v.positive;
    long = v.long;
    short = w;
    in_use = v.in_use;
    counted = v.counted;
    few = v.few;
    ordered = v.ordered;
  }

  -- The given master, which has free pages, gave the stack: it alone has changed, its count is less by
  -- the pages of one stack, and returning the stack undoes the allocation.
  abbrev pub FromMaster :
      (master : Provider) → (Provider → Allocator) → Option (Option Metamark × Allocator) → Type 0
  FromMaster master put r =
      (master.size ≢ 0)
      × (m : Metamark) × (p : Provider) × (r ≡ some (some m, put p))
      × (p.size + total a ≡ master.size)
      × IsAllocator (put p)
      × (free m (put p) ≡ some (a, none))

  -- The master is used up, and a slave gave the stack.
  abbrev pub FromSlave : ℕ → Option (Option Metamark × Allocator) → Type 0
  FromSlave size r = (size ≡ 0) × Served a.long_term a.short_term a.properties r

  abbrev pub LongTerm : Option (Option Metamark × Allocator) → Type 0
  LongTerm r =
      FromMaster a.long_term (λ p. record a { long_term = p }) r ⊎ FromSlave a.long_term.size r

  module _ (long_self : a.long_term.self ≡ long_term) where
    LongTerm-allocate : LongTerm (allocate_long_term (some address) (some zone) a)
    unfolding allocate_long_term free
    LongTerm-allocate = elim (Bool-cases (a.long_term.size == 0)) [
      | inl none_left ↦ inr (
        (==_iff _ _).0 none_left,
        rw (allocate_long_term, page_allocate_empty (total a) a.long_term none_left)
            allocate_fallback-Served,
      )
      | inr left ↦
          let ne : a.long_term.size ≢ 0 = λ z. cc ((==_iff _ _).1 z) in
          let (m, p, run, size, _, same, v', back, owner) =
            page_allocate-Taken (total a) a.long_term v.positive v.long ne in
          inl (
            ne,
            m,
            p,
            rw (allocate_long_term, run),
            size,
            with_long p v',
            rw (free, owner ∙ long_self, back),
          )
    ]

    -- The default source, with room for a new slave: the long term zone serves while it has a free
    -- stack, and freeing that stack undoes the allocation; else a slave serves and the allocator
    -- stays in order.
    pub allocate_default-Served : LongTerm (allocate 0 (some address) (some zone) a)
    unfolding allocate
    allocate_default-Served = LongTerm-allocate

    -- The short term source, with room for a new slave: while the short term zone has a free stack,
    -- it serves, its count is one stack less, no other part of the allocator changes, and freeing that
    -- stack undoes the allocation; else the long term zone serves in the same way while it has a free
    -- stack, and else a slave does, and the allocator stays in order.
    pub allocate_short_term-Served :
        a.short_term.self ≡ short_term
        → FromMaster a.short_term
            (λ p. record a { short_term = p })
            (allocate 1 (some address) (some zone) a)
          ⊎ ((a.short_term.size ≡ 0) × LongTerm (allocate 1 (some address) (some zone) a))
    unfolding allocate allocate_short_term free
    allocate_short_term-Served short_self = elim (Bool-cases (a.short_term.size == 0)) [
      | inl none_left ↦ inr (
        (==_iff _ _).0 none_left,
        rw (allocate_short_term, page_allocate_empty (total a) a.short_term none_left)
            LongTerm-allocate,
      )
      | inr left ↦
          let ne : a.short_term.size ≢ 0 = λ z. cc ((==_iff _ _).1 z) in
          let (m, p, run, size, _, same, v', back, owner) =
            page_allocate-Taken (total a) a.short_term v.positive v.short ne in
          inl (
            ne,
            m,
            p,
            rw (allocate_short_term, run),
            size,
            with_short p v',
            rw (free, owner ∙ short_self, back),
          )
    ]

-- Where the root allocator has no room for a slave and every slave is used up, the fallback
-- follows the NULL that p7r_stack_page_provider_new returned, whatever mmap would give.
pub allocate_fallback_fault :
    (a : Allocator) (mapped : Option ℕ)
    → All IsFull a.slaves
    → allocate_fallback none mapped a ≡ none
unfolding allocate_fallback provider_new
allocate_fallback_fault a mapped full = rw (allocate_fallback, first_free_full a.slaves full)
