-- ===== src/P7r/StackAllocator/Slaves.antt =====
-- The ring of slaves: slaves without a free stack stand behind all others.
use servcraft.Prelude.{
  ◌+◌, ◌≡◌, ◌≢◌, refl, ap, true, none, some, List, [], ◌∷◌, ◌++◌, arith, ◌==◌, if◌then◌else◌, All,
  All-append, length, inl, inr, Bool-cases, ==_iff, ==_self, some_eq,
}
use mathlib.Core.Path.{subst}
use servcraft.P7r.StackPage.{ProviderRef, long_term, short_term, slave_at, Provider}
use servcraft.P7r.StackAllocator.{same_ref, find_slave, replace, unlink, first_free}

pub same_ref_eq : (a b : ProviderRef) → same_ref a b ≡ true → a ≡ b
unfolding same_ref
same_ref_eq long_term long_term e = refl
same_ref_eq long_term short_term e = cc
same_ref_eq long_term (slave_at b) e = cc
same_ref_eq short_term short_term e = refl
same_ref_eq short_term long_term e = cc
same_ref_eq short_term (slave_at b) e = cc
same_ref_eq (slave_at a) (slave_at b) e = ap slave_at ((==_iff a b).0 e)
same_ref_eq (slave_at a) long_term e = cc
same_ref_eq (slave_at a) short_term e = cc

pub same_ref_self : (a : ProviderRef) → same_ref a a ≡ true
unfolding same_ref
same_ref_self long_term = refl
same_ref_self short_term = refl
same_ref_self (slave_at a) = ==_self a

abbrev pub IsFull : Provider → Type 0
IsFull s = s.size ≡ 0

-- Behind a slave without a free stack there are only such slaves.
abbrev pub FullLast : List Provider → Type 0
FullLast [] = Unit
FullLast (s ∷ ss) = (IsFull s → All IsFull ss) × FullLast ss

module _ (r : ProviderRef) where
  pub find_slave-same :
      (ss : List Provider) (p : Provider) → find_slave r ss ≡ some p → same_ref r p.self ≡ true
  unfolding find_slave
  find_slave-same [] p e = cc
  find_slave-same (s ∷ ss) p e = ground (arith, find_slave-same ss p)

  pub length-replace : (p : Provider) (ss : List Provider) → length (replace r p ss) ≡ length ss
  unfolding replace
  length-replace p [] = refl
  length-replace p (s ∷ ss) = ground (arith, length-replace p ss)

  pub length-unlink :
      (ss : List Provider) (p : Provider)
      → find_slave r ss ≡ some p
      → length (unlink r ss) + 1 ≡ length ss
  unfolding find_slave unlink
  length-unlink [] p e = cc
  length-unlink (s ∷ ss) p e = ground (arith, length-unlink ss p)

  pub unlink-replace :
      (p : Provider) (ss : List Provider)
      → same_ref r p.self ≡ true
      → unlink r (replace r p ss) ≡ unlink r ss
  unfolding replace unlink
  unlink-replace p [] e = refl
  unlink-replace p (s ∷ ss) e = ground (arith, unlink-replace p ss e)

  pub replace-replace :
      (p q : Provider) (ss : List Provider)
      → same_ref r p.self ≡ true
      → replace r q (replace r p ss) ≡ replace r q ss
  unfolding replace
  replace-replace p q [] e = refl
  replace-replace p q (s ∷ ss) e = ground (arith, replace-replace p q ss e)

  pub All-find_slave :
      (P : Provider → Type 0) (ss : List Provider) (p : Provider)
      → All P ss
      → find_slave r ss ≡ some p
      → P p
  unfolding find_slave
  All-find_slave P [] p h e = cc
  All-find_slave P (s ∷ ss) p h e = elim (Bool-cases (same_ref r s.self)) [
    | inl same ↦ subst P (some_eq (rw same at e)) h.0
    | inr other ↦ All-find_slave P ss p h.1 (rw other at e)
  ]

  pub All-replace :
      (P : Provider → Type 0) (p : Provider) (ss : List Provider)
      → All P ss
      → P p
      → All P (replace r p ss)
  unfolding replace
  All-replace P p [] h x = tt
  All-replace P p (s ∷ ss) h x = elim (Bool-cases (same_ref r s.self)) [
    | inl same ↦ rw same (x, h.1)
    | inr other ↦ rw other (h.0, All-replace P p ss h.1 x)
  ]

  pub All-unlink : (P : Provider → Type 0) (ss : List Provider) → All P ss → All P (unlink r ss)
  unfolding unlink
  All-unlink P [] h = tt
  All-unlink P (s ∷ ss) h = elim (Bool-cases (same_ref r s.self)) [
    | inl same ↦ rw same h.1
    | inr other ↦ rw other (h.0, All-unlink P ss h.1)
  ]

  pub FullLast-unlink : (ss : List Provider) → FullLast ss → FullLast (unlink r ss)
  unfolding unlink
  FullLast-unlink [] h = tt
  FullLast-unlink (s ∷ ss) h = elim (Bool-cases (same_ref r s.self)) [
    | inl same ↦ rw same h.1
    | inr other ↦ rw other (λ f. All-unlink IsFull ss (h.0 f), FullLast-unlink ss h.1)
  ]

  -- A slave that had a free stack, and still has one, may change in place.
  pub FullLast-replace :
      (p q : Provider) (ss : List Provider)
      → find_slave r ss ≡ some p
      → p.size ≢ 0
      → q.size ≢ 0
      → FullLast ss
      → FullLast (replace r q ss)
  unfolding find_slave replace
  FullLast-replace p q [] e np nq h = tt
  FullLast-replace p q (s ∷ ss) e np nq h = elim (Bool-cases (same_ref r s.self)) [
    | inl same ↦ rw same (λ f. absurd (nq f), h.1)
    | inr other ↦
        let found : find_slave r ss ≡ some p = rw other at e in
        rw other (
          λ f. absurd (np (All-find_slave IsFull ss p (h.0 f) found)),
          FullLast-replace p q ss found np nq h.1,
        )
  ]

pub FullLast-snoc :
    (ss : List Provider) (p : Provider) → FullLast ss → IsFull p → FullLast (ss ++ p ∷ [])
FullLast-snoc [] p h f = (λ _. tt, tt)
FullLast-snoc (s ∷ ss) p h f =
    (λ g. All-append IsFull ss (p ∷ []) (h.0 g) (f, tt), FullLast-snoc ss p h.1 f)

pub first_free_full : (ss : List Provider) → All IsFull ss → first_free ss ≡ none
unfolding first_free
first_free_full [] h = refl
first_free_full (s ∷ ss) h = rw h.0 (first_free_full ss h.1)

-- In this order the search for a free stack looks at the first slave only.
pub first_free-FullLast :
    (s : Provider) (ss : List Provider)
    → FullLast (s ∷ ss)
    → first_free (s ∷ ss) ≡ (if s.size == 0 then none else some s)
unfolding first_free
first_free-FullLast s ss h = elim (Bool-cases (s.size == 0)) [
  | inl full ↦ rw full (first_free_full ss (h.0 ((==_iff _ _).0 full)))
  | inr free ↦ rw free
]
