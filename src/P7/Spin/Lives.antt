-- ===== src/P7/Spin/Lives.antt =====
-- p7/spin.c: which locks are given out, and which wait in the cache, over any sequence of creations
-- and destructions on one carrier.
use mathlib.Core.Path.{subst}
use servcraft.Prelude.{
  ℕ, zero, suc, ◌+◌, ◌%◌, ◌^◌, ◌≤◌, ◌<◌, ◌≡◌, refl, ap, true, false, Option, none, some, List, [],
  ◌∷◌, arith, ◌==◌, ltb, Bool-cases, inl, inr, ==_iff, some_eq, count, count-append, count-erase,
  length, length-append, erase,
}
use servcraft.P7.Spin.{
  SpinArena, Spinlock, Use, busy, free, temp, local, is_free, after, take, scan, take_cached,
  take_new, thunk_alloc, prepare, prepared, create, discard, destroy_by, destroy, tlinit,
}

-- Each lock is given out once or cached once, at most; the cache is counted and within its
-- capacity; and a search finds none of these free.
pub record IsSound (a : SpinArena) (live : List ℕ) : Type 0 where
  pub apart : (x : ℕ) → count x live + count x a.cached ≤ 1
  pub counted : a.free_cached ≡ length a.cached
  pub within : a.free_cached ≤ a.cap_cached
  pub kept : (x : ℕ) → 0 < count x live + count x a.cached → is_free (a.locks x).is_free ≡ false

-- The state after a call that gave a lock, or null.
abbrev Given : List ℕ → SpinArena × Option ℕ → Type 0
Given live (b, none) = IsSound b live
Given live (b, some x) = IsSound b (x ∷ live)

-- What the root allocator gives is no lock in use.
abbrev pub IsNew : Option ℕ → List ℕ → SpinArena → Type 0
IsNew none live a = Unit
IsNew (some x) live a = count x live + count x a.cached ≡ 0

module _ {a : SpinArena} {live : List ℕ} (sound : IsSound a live) where
  open sound use {apart, counted, within, kept}

  take-IsSound : (x : ℕ) → is_free (a.locks x).is_free ≡ true → IsSound (take x a) (x ∷ live)
  unfolding take
  take-IsSound x found = record {
    apart = λ y. ground (arith, apart y, kept y, found, ==_iff x y);
    counted = counted;
    within = within;
    kept = λ y h. ground (arith, kept y, ==_iff x y);
  }

  take_cached-IsSound :
      (xs : List ℕ) {r : SpinArena × Option ℕ}
      → xs ≡ a.cached
      → take_cached xs a ≡ some r
      → Given live r
  unfolding take_cached
  take_cached-IsSound [] e q = cc
  take_cached-IsSound (x ∷ xs) e q = subst (Given live) (some_eq q) record {
    apart = λ y. ground (arith, apart y, ap (count y) e);
    counted = ground (arith, counted, ap length e);
    within = ground (arith, within);
    kept = λ y h. ground (arith, kept y, ap (count y) e, ==_iff x y);
  }

  take_new-IsSound : (heap : Option ℕ) → IsNew heap live a → Given live (take_new heap a)
  unfolding take_new
  take_new-IsSound none h = sound
  take_new-IsSound (some x) h = record {
    apart = λ y. ground (arith, apart y, h, ==_iff x y);
    counted = counted;
    within = within;
    kept = λ y q. ground (arith, kept y, ==_iff x y);
  }

  scan-IsSound : (fuel idx : ℕ) {r : SpinArena × Option ℕ} → scan fuel idx a ≡ some r → Given live r
  unfolding scan
  scan-IsSound zero idx q = cc
  scan-IsSound (suc fuel) idx q = elim (Bool-cases (is_free (a.locks idx).is_free)) [
    | inl found ↦ subst (Given live) (some_eq (rw found at q)) (take-IsSound idx found)
    | inr held ↦ elim (Bool-cases (after a.cap idx == a.next_avail)) [
      | inl last ↦ subst (Given live) (some_eq (rw (held, last) at q)) sound
      | inr more ↦ scan-IsSound fuel (after a.cap idx) (rw (held, more) at q)
    ]
  ]

  discard-IsSound : (x : ℕ) → 0 < count x live → IsSound (discard x a) (erase x live)
  unfolding discard
  discard-IsSound x h = elim (Bool-cases (ltb a.free_cached a.cap_cached)) [
    | inl room ↦ rw room record {
      apart = λ y.
          ground
            (arith, apart y, h, count-erase y x live, ==_iff x y, count-append y a.cached (x ∷ []));
      counted = omega (arith, counted, length-append a.cached (x ∷ []));
      within = ground (arith, room);
      kept = λ y q.
          ground
            (arith, kept y, h, count-erase y x live, ==_iff x y, count-append y a.cached (x ∷ []));
    }
    | inr full ↦ rw full record {
      apart = λ y. ground (arith, apart y, count-erase y x live);
      counted = counted;
      within = within;
      kept = λ y q. ground (arith, kept y, count-erase y x live);
    }
  ]

  leave-IsSound : (x : ℕ) → IsSound a (erase x live)
  leave-IsSound x = record {
    apart = λ y. ground (arith, apart y, count-erase y x live);
    counted = counted;
    within = within;
    kept = λ y q. ground (arith, kept y, count-erase y x live);
  }

  destroy_by-IsSound :
      (state : Use) (x : ℕ) → 0 < count x live → IsSound (destroy_by state x a) (erase x live)
  unfolding destroy_by
  destroy_by-IsSound busy x h = record {
    apart = λ y. ground (arith, apart y, count-erase y x live);
    counted = counted;
    within = within;
    kept = λ y q. ground (arith, kept y, apart y, h, count-erase y x live, ==_iff x y);
  }
  destroy_by-IsSound temp x h = discard-IsSound x h
  destroy_by-IsSound free x h = leave-IsSound x
  destroy_by-IsSound local x h = leave-IsSound x

  destroy-IsSound : (x : ℕ) → 0 < count x live → IsSound (destroy x a) (erase x live)
  unfolding destroy
  destroy-IsSound x h = elim (Bool-cases ((a.locks x).from == a.carrier_id)) [
    | inl home ↦ rw home (destroy_by-IsSound (a.locks x).is_free x h)
    | inr away ↦ rw away (leave-IsSound x)
  ]

-- What p7_spinlock_create writes to a lock that was given.
prepare-IsSound :
    (a : SpinArena) (live : List ℕ) (spintime : ℕ) (o : Option ℕ)
    → Given live (a, o)
    → Given live (prepare spintime (a, o))
unfolding prepare
prepare-IsSound a live spintime none h = h
prepare-IsSound a live spintime (some x) h = record {
  apart = h.apart;
  counted = h.counted;
  within = h.within;
  kept = λ y q. ground (arith, h.kept y q, ==_iff x y);
}

thunk_alloc-IsSound :
    {a : SpinArena} {live : List ℕ}
    → IsSound a live
    → (fuel : ℕ) (heap : Option ℕ) {r : SpinArena × Option ℕ} → IsNew heap live a
    → thunk_alloc fuel heap a ≡ some r
    → Given live r
unfolding thunk_alloc
thunk_alloc-IsSound {a} {live} sound fuel heap new q = elim (Bool-cases (ltb a.used a.cap)) [
  | inl room ↦
      let more : IsSound (record a { used = (a.used + 1) % 2 ^ 32 }) live = record {
        apart = sound.apart;
        counted = sound.counted;
        within = sound.within;
        kept = sound.kept;
      } in
      scan-IsSound more fuel a.next_avail (rw room at q)
  | inr full ↦ elim (Bool-cases (a.free_cached == 0)) [
    | inl empty ↦
        subst (Given live) (some_eq (rw (full, empty) at q)) (take_new-IsSound sound heap new)
    | inr cached ↦ take_cached-IsSound sound a.cached refl (rw (full, cached) at q)
  ]
]

-- A creation that succeeded, one that gave null, or the destruction of a lock that is given out.
pub data Step (a : SpinArena) (live : List ℕ) : SpinArena → List ℕ → Type 0 where
  creates :
      (fuel : ℕ) (heap : Option ℕ) (spintime x : ℕ) {b : SpinArena}
      → IsNew heap live a
      → create fuel heap spintime a ≡ some (b, some x)
      → Step a live b (x ∷ live)
  refuses :
      (fuel : ℕ) (heap : Option ℕ) (spintime : ℕ) {b : SpinArena}
      → IsNew heap live a
      → create fuel heap spintime a ≡ some (b, none)
      → Step a live b live
  destroys : (x : ℕ) → 0 < count x live → Step a live (destroy x a) (erase x live)

prepared-Given :
    (spintime : ℕ) (o : Option (SpinArena × Option ℕ)) {live : List ℕ} {r : SpinArena × Option ℕ}
    → ((q : SpinArena × Option ℕ) → o ≡ some q → Given live q)
    → prepared spintime o ≡ some r
    → Given live r
unfolding prepared
prepared-Given spintime none h e = cc
prepared-Given spintime (some (b, x)) {live} h e =
    subst (Given live) (some_eq e) (prepare-IsSound b live spintime x (h (b, x) refl))

Step-IsSound :
    {a b : SpinArena} {live held : List ℕ} → Step a live b held → IsSound a live → IsSound b held
unfolding create
Step-IsSound (creates fuel heap spintime x new e) sound =
    prepared-Given spintime (thunk_alloc fuel heap _) (λ q. thunk_alloc-IsSound sound fuel heap new)
      e
Step-IsSound (refuses fuel heap spintime new e) sound =
    prepared-Given spintime (thunk_alloc fuel heap _) (λ q. thunk_alloc-IsSound sound fuel heap new)
      e
Step-IsSound (destroys x h) sound = destroy-IsSound sound x h

-- The states that a carrier gets to from p7_spinlock_tlinit, with the locks that are given out.
pub data Reach (start : SpinArena) : SpinArena → List ℕ → Type 0 where
  here : Reach start start []
  later :
      {a b : SpinArena} {live held : List ℕ}
      → Step a live b held
      → Reach start a live
      → Reach start b held

tlinit-IsSound :
    (n ncarriers carrier_id cap_cached : ℕ) (locks : ℕ → Spinlock)
    → IsSound (tlinit n ncarriers carrier_id cap_cached locks) []
unfolding tlinit
tlinit-IsSound n ncarriers carrier_id cap_cached locks = record {
  apart = λ x. omega arith;
  counted = refl;
  within = omega arith;
  kept = λ x h. absurd (omega (arith, h));
}

Reach-from :
    {start a : SpinArena} {live : List ℕ} → IsSound start [] → Reach start a live → IsSound a live
Reach-from s here = s
Reach-from s (later step r) = Step-IsSound step (Reach-from s r)

-- From p7_spinlock_tlinit on, after any creations and destructions by a carrier that destroys what
-- it was given, and where the root allocator gives no lock in use: each lock is given out once or
-- cached once, at most, the cache is counted and within its capacity, and none of these is free to
-- a search.
pub tlinit-Reach :
    (n ncarriers carrier_id cap_cached : ℕ) (locks : ℕ → Spinlock) {a : SpinArena} {live : List ℕ}
    → Reach (tlinit n ncarriers carrier_id cap_cached locks) a live
    → IsSound a live
tlinit-Reach n ncarriers carrier_id cap_cached locks r =
    Reach-from (tlinit-IsSound n ncarriers carrier_id cap_cached locks) r
