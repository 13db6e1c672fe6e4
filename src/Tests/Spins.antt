-- ===== src/Tests/Spins.antt =====
-- Two threads at one spinlock, and a carrier that creates and destroys locks.
use servcraft.Prelude.{ℕ, ◌≡◌, ◌≤◌, ◌<◌, refl, false, Option, none, some, [], ◌∷◌, arith}
use servcraft.P7.Spin.Lock.{
  System, Reach, here, later, pick, call_0_1, call_0_2, load_free, lock_0_2, fail_0_1, holds,
  holding, exchanging_0_1, loading, loaded, start, moved,
}
use servcraft.P7.Spin.Lock.Exclusion.{lock_exclusion}
use servcraft.P7.Spin.{
  SpinArena, Spinlock, temp, tlinit, reserve, create, destroy, take, scan, thunk_alloc, prepare,
  prepared, take_new,
}
use servcraft.P7.Spin.Scan.{scan_ends, Found}
use servcraft.P7.Spin.Lives
use servcraft.P7.Spin.Lives.{tlinit-Reach, IsSound, creates, destroys}

-- The first thread locks in version 0.2, the second one tries in version 0.1.
abbrev s₁ : System
s₁ = moved start 0 0 loading

abbrev s₂ : System
s₂ = moved s₁ 0 0 loaded

abbrev s₃ : System
s₃ = moved s₂ 0 1 holding

abbrev s₄ : System
s₄ = moved s₃ 1 1 exchanging_0_1

abbrev s₅ : System
s₅ = moved s₄ 1 1 exchanging_0_1

s₅-Reach : Reach 2 s₅
s₅-Reach = later (pick {s = s₄} 1 (fail_0_1 (λ e. absurd (omega (arith, e)))) (omega arith)) (
    later (pick {s = s₃} 1 call_0_1 (omega arith)) (
      later (pick {s = s₂} 0 (lock_0_2 refl) (omega arith)) (
        later (pick {s = s₁} 0 (load_free refl) (omega arith))
          (later (pick {s = start} 0 call_0_2 (omega arith)) here))))

lock_exclusion_example : (holds (s₅.pc 1) ≡ false) × (s₅.word ≡ 1)
lock_exclusion_example = lock_exclusion s₅-Reach 0 1 (λ e. absurd (omega (arith, e))) refl

abbrev blank : ℕ → Spinlock
blank x = record { lock = 0; spintime = 0; idx_reserved = 0; is_free = temp; from = 0 }

-- The first of two carriers, four reserved locks and a cache for one.
abbrev begun : SpinArena
begun = tlinit 4 2 0 1 (reserve 4 blank)

abbrev arena_of : Option (SpinArena × Option ℕ) → SpinArena
arena_of none = begun
arena_of (some r) = r.0

abbrev one : SpinArena
one = arena_of (create 2 none 9 begun)

one-create : create 2 none 9 begun ≡ some (one, some 0)
unfolding tlinit reserve create thunk_alloc scan take prepare prepared
one-create = refl

-- The second one comes from the root allocator, at 40.
abbrev two : SpinArena
two = arena_of (create 2 (some 40) 9 one)

two-create : create 2 (some 40) 9 one ≡ some (two, some 40)
unfolding tlinit reserve create thunk_alloc scan take take_new prepare prepared
two-create = refl

two-Reach : Lives.Reach begun (destroy 40 two) (0 ∷ [])
unfolding tlinit reserve create thunk_alloc scan take take_new prepare prepared
two-Reach = Lives.later (destroys 40 (omega arith)) (
    Lives.later (creates 2 (some 40) 9 40 refl two-create)
      (Lives.later (creates 2 none 9 0 tt one-create) Lives.here))

tlinit-Reach_example : IsSound (destroy 40 two) (0 ∷ [])
tlinit-Reach_example = tlinit-Reach 4 2 0 1 (reserve 4 blank) two-Reach

one_narrow : one.cap < 4294967296
unfolding tlinit reserve create thunk_alloc scan take prepare prepared
one_narrow = omega arith

one_home : one.next_avail < one.cap
unfolding tlinit reserve create thunk_alloc scan take prepare prepared
one_home = omega arith

one_enough : one.cap ≤ 2
unfolding tlinit reserve create thunk_alloc scan take prepare prepared
one_enough = omega arith

scan_ends_example : Found one (scan 2 one.next_avail one)
scan_ends_example = scan_ends one one_narrow one_home 2 one_enough
