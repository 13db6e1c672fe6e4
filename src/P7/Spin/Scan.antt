-- ===== src/P7/Spin/Scan.antt =====
-- p7/spin.c: the search for a free reserved lock, and whether it ends.
use native.Mathlib.Nat.{mod-lt, mod-eq_of_lt, mod_self}
use servcraft.Prelude.{
  ℕ, zero, suc, ◌+◌, ◌-◌, ◌%◌, ◌^◌, ◌≤◌, ◌<◌, ◌≡◌, ◌⊎◌, refl, Bool, true, false, ◌&&◌, ◌||◌, Option,
  none, some, arith, ◌==◌, ltb, leb, if◌then◌else◌, Bool-cases, inl, inr, ==_iff, ==_of_ne,
}
use servcraft.P7.Spin.{SpinArena, is_free, after, take, scan}

module _ (a : SpinArena) where
  abbrev pub IsTaken : ℕ → Type 0
  IsTaken i = is_free (a.locks i).is_free ≡ false

  -- A search that starts outside the first cap indices meets only those, and its end is not there.
  pub scan_beyond :
      (fuel idx : ℕ)
      → 0 < a.cap
      → a.cap ≤ a.next_avail
      → ((i : ℕ) → i < a.cap → IsTaken i)
      → IsTaken idx
      → scan fuel idx a ≡ none
  unfolding scan
  scan_beyond zero idx pos out taken here = refl
  scan_beyond (suc fuel) idx pos out taken here =
      let next : after a.cap idx < a.cap = mod-lt ((idx + 1) % 2 ^ 32) pos in
      let more : (after a.cap idx == a.next_avail) ≡ false =
        ==_of_ne _ _ (λ e. absurd (omega (arith, e, next, out))) in
      rw (here, more)
        (scan_beyond fuel (after a.cap idx) pos out taken (taken (after a.cap idx) next))

  -- The index i is among the d from idx on, round the first cap.
  abbrev ahead : ℕ → ℕ → ℕ → Bool
  ahead idx d i = (leb idx i && ltb i (idx + d)) || ltb (i + a.cap) (idx + d)

  -- What a search gives: a lock that was free, or null, where none of the first cap is free.
  abbrev pub Found : Option (SpinArena × Option ℕ) → Type 0
  Found r =
      ((i : ℕ) × (i < a.cap) × (is_free (a.locks i).is_free ≡ true) × (r ≡ some (take i a, some i)))
      ⊎ (((i : ℕ) → i < a.cap → IsTaken i) × (r ≡ some (a, none)))

  scan_lem :
      (fuel idx : ℕ)
      → scan (suc fuel) idx a ≡ (
          if is_free (a.locks idx).is_free
          then some (take idx a, some idx)
          else if after a.cap idx == a.next_avail
          then some (a, none)
          else scan fuel (after a.cap idx) a)
  unfolding scan
  scan_lem fuel idx = refl

  module _ (narrow : a.cap < 2 ^ 32) (home : a.next_avail < a.cap) where
    after_lem :
        (idx : ℕ) → idx < a.cap → after a.cap idx ≡ (if idx + 1 == a.cap then 0 else idx + 1)
    after_lem idx low = elim (Bool-cases (idx + 1 == a.cap)) [
      | inl last ↦ rw (last, (==_iff _ _).0 last, mod-eq_of_lt {m = 2 ^ 32} narrow) (mod_self a.cap)
      | inr inside ↦
          rw (inside, mod-eq_of_lt {n = idx + 1} {m = 2 ^ 32} (omega (arith, low, narrow)))
            (mod-eq_of_lt (ground (arith, low, inside)))
    ]

    -- The d further indices end at next_avail.
    abbrev Ends : ℕ → ℕ → Type 0
    Ends idx d = (idx + d ≡ a.next_avail) ⊎ (idx + d ≡ a.next_avail + a.cap)

    after_last : (idx : ℕ) → idx < a.cap → Ends idx 1 → (after a.cap idx == a.next_avail) ≡ true
    after_last idx low place = ground (arith, after_lem idx low)

    after_more :
        (idx d : ℕ)
        → idx < a.cap
        → suc (suc d) ≤ a.cap
        → Ends idx (suc (suc d))
        → ((after a.cap idx == a.next_avail) ≡ false) × Ends (after a.cap idx) (suc d)
    after_more idx d low short place = elim (Bool-cases (idx + 1 == a.cap)) [
      | inl last ↦ rw (after_lem idx low, last) (ground (arith, last), inl (ground (arith, last)))
      | inr inside ↦ rw (after_lem idx low, inside) (ground (arith, inside), ground (arith, inside))
    ]

    ahead_step :
        (idx d i : ℕ)
        → idx < a.cap
        → i < a.cap
        → suc (suc d) ≤ a.cap
        → ahead (after a.cap idx) (suc d) i ≡ false
        → (i ≡ idx) ⊎ (ahead idx (suc (suc d)) i ≡ false)
    ahead_step idx d i low small short h = elim (Bool-cases (i == idx)) [
      | inl same ↦ inl ((==_iff i idx).0 same)
      | inr other ↦ elim (Bool-cases (idx + 1 == a.cap)) [
        | inl last ↦ inr (ground (arith, last, other, after_lem idx low, h))
        | inr inside ↦ inr (ground (arith, inside, other, after_lem idx low, h))
      ]
    ]

    scan_from :
        (fuel d idx : ℕ)
        → d ≤ fuel
        → suc d ≤ a.cap
        → idx < a.cap
        → Ends idx (suc d)
        → ((i : ℕ) → i < a.cap → ahead idx (suc d) i ≡ false → IsTaken i)
        → Found (scan (suc fuel) idx a)
    scan_from fuel zero idx enough short low place done =
        elim (Bool-cases (is_free (a.locks idx).is_free)) [
          | inl found ↦ inl (idx, low, found, rw (scan_lem fuel idx, found))
          | inr held ↦ inr (
            λ i h. elim (Bool-cases (i == idx)) [
              | inl same ↦ rw ((==_iff i idx).0 same) held
              | inr other ↦ done i h (ground (arith, other, h))
            ],
            rw (scan_lem fuel idx, held, after_last idx low place),
          )
        ]
    scan_from zero (suc d) idx enough short low place done = absurd (omega (arith, enough))
    scan_from (suc fuel) (suc d) idx enough short low place done =
        elim (Bool-cases (is_free (a.locks idx).is_free)) [
          | inl found ↦ inl (idx, low, found, rw (scan_lem (suc fuel) idx, found))
          | inr held ↦
              let more = after_more idx d low short place in
              rw (scan_lem (suc fuel) idx, held, more.0)
                (scan_from fuel d (after a.cap idx) (omega (arith, enough)) (omega (arith, short))
                  (mod-lt ((idx + 1) % 2 ^ 32) (omega (arith, low))) more.1
                  (λ i h t. elim (ahead_step idx d i low h short t) [
                    | inl same ↦ rw same held
                    | inr behind ↦ done i h behind
                  ]))
        ]

    -- With fewer than 2 ^ 32 reserved locks to a carrier, a search that starts below that number, as
    -- on the first carrier, and has fuel for each of them ends: it takes a lock that was free, or it
    -- gives null, and then none of them is free.
    pub scan_ends : (fuel : ℕ) → a.cap ≤ fuel → Found (scan fuel a.next_avail a)
    scan_ends zero enough = absurd (omega (arith, enough, home))
    scan_ends (suc fuel) enough =
        scan_from fuel (a.cap - 1) a.next_avail (omega (arith, enough)) (omega (arith, home)) home
          (inr (omega (arith, home))) (λ i h t. absurd (ground (arith, h, home, t)))
