-- ===== src/P7/Threads.antt =====
-- Any number of threads, each at a place in its code: how many stand at places of a kind.
use mathlib.Core.Path.{subst}
use servcraft.Prelude.{
  ℕ, zero, suc, ◌+◌, ◌≤◌, ◌<◌, ◌≡◌, ◌≢◌, refl, Bool, true, false, arith, ◌==◌, update, inl, inr,
  Bool-cases, ==_iff, ==_of_ne, ==_self,
}

abbrev pub one_if : Bool → ℕ
one_if true = 1
one_if false = 0

module _ {A : Type 0} (kind : A → Bool) where
  -- The number of the first n threads whose place is of the kind.
  pub tally : ℕ → (ℕ → A) → ℕ
  tally zero f = 0
  tally (suc n) f = tally n f + one_if (kind (f n))

  tally_beyond : (n : ℕ) (f : ℕ → A) (i : ℕ) (a : A) → n ≤ i → tally n (update f i a) ≡ tally n f
  unfolding tally
  tally_beyond zero f i a h = refl
  tally_beyond (suc n) f i a h =
      rw (==_of_ne i n (λ e. absurd (omega arith)), tally_beyond n f i a (omega arith))

  -- One thread moves: only its own share changes.
  pub tally-update :
      (n : ℕ) (f : ℕ → A) (i : ℕ) (a : A)
      → i < n
      → tally n (update f i a) + one_if (kind (f i)) ≡ tally n f + one_if (kind a)
  unfolding tally
  tally-update zero f i a h = absurd (omega arith)
  tally-update (suc n) f i a h = elim (Bool-cases (i == n)) [
    | inl last ↦
        let e : i ≡ n = (==_iff i n).0 last in
        rw (e, ==_self n) (omega (arith, tally_beyond n f n a (omega arith)))
    | inr before ↦ rw before (omega (arith, tally-update n f i a (ground arith)))
  ]

  pub tally-le : (n : ℕ) (f : ℕ → A) → tally n f ≤ n
  unfolding tally
  tally-le zero f = omega arith
  tally-le (suc n) f = ground (arith, tally-le n f)

  pub tally_pos : (n : ℕ) (f : ℕ → A) (i : ℕ) → i < n → kind (f i) ≡ true → 0 < tally n f
  unfolding tally
  tally_pos zero f i h k = absurd (omega arith)
  tally_pos (suc n) f i h k = elim (Bool-cases (i == n)) [
    | inl last ↦ rw (← (==_iff i n).0 last, k) (omega arith)
    | inr before ↦ omega (arith, tally_pos n f i (ground arith) k)
  ]

  pub tally_none : (n : ℕ) (f : ℕ → A) → ((i : ℕ) → kind (f i) ≡ false) → tally n f ≡ 0
  unfolding tally
  tally_none zero f h = refl
  tally_none (suc n) f h = rw (h n, tally_none n f h)

  pub tally_pair :
      (n : ℕ) (f : ℕ → A) (i j : ℕ)
      → i ≢ j
      → i < n
      → j < n
      → kind (f i) ≡ true
      → kind (f j) ≡ true
      → 2 ≤ tally n f
  unfolding tally
  tally_pair zero f i j apart hi hj ki kj = absurd (omega arith)
  tally_pair (suc n) f i j apart hi hj ki kj = elim (Bool-cases (i == n)) [
    | inl last ↦
        let kn : kind (f n) ≡ true = subst (λ k. kind (f k) ≡ true) ((==_iff i n).0 last) ki in
        rw kn (omega (arith, tally_pos n f j (ground (arith, last)) kj))
    | inr before ↦ elim (Bool-cases (j == n)) [
      | inl last ↦
          let kn : kind (f n) ≡ true = subst (λ k. kind (f k) ≡ true) ((==_iff j n).0 last) kj in
          rw kn (omega (arith, tally_pos n f i (ground (arith, before)) ki))
      | inr earlier ↦
          omega (
            arith,
            tally_pair n f i j apart (ground (arith, before)) (ground (arith, earlier)) ki kj,
          )
    ]
  ]

  -- Where the tally is above 0, one of the places is of the kind.
  pub tally_some : (n : ℕ) (f : ℕ → A) → 0 < tally n f → (i : ℕ) × (kind (f i) ≡ true)
  unfolding tally
  tally_some zero f h = absurd (omega arith)
  tally_some (suc n) f h = elim (Bool-cases (kind (f n))) [
    | inl e ↦ (n, e)
    | inr e ↦
        let share : one_if (kind (f n)) ≡ 0 = rw e refl in tally_some n f (omega (arith, h, share))
  ]
