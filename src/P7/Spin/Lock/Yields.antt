-- ===== src/P7/Spin/Lock/Yields.antt =====
-- p7/spin.c: how often a thread that waits for the lock yields.
use native.Mathlib.Nat.{add-div_right, div-eq_of_lt, zero-add, add-zero}
use servcraft.Prelude.{
  ℕ, zero, suc, ◌+◌, ◌/◌, ◌%◌, ◌^◌, ◌<◌, ◌≡◌, ap, true, arith, ◌==◌, Bool-cases, inl, inr,
}
use servcraft.P7.Spin.Lock.{yields_0_1, yields_0_2}

wrap_full : (s f c : ℕ) → c < s → s < 2 ^ 32 → ((c + 1) % 2 ^ 32 == s) ≡ true → suc f + c ≡ f + s
wrap_full s f c lt fits full = ground arith

wrap_more : (s f c : ℕ) → c < s → s < 2 ^ 32 → suc f + c ≡ f + (c + 1) % 2 ^ 32
wrap_more s f c lt fits = omega arith

yields_0_1-from : (s f c : ℕ) → c < s → s < 2 ^ 32 → yields_0_1 s f c ≡ (f + c) / s
unfolding yields_0_1
yields_0_1-from s zero c lt fits =
    omega (arith, div-eq_of_lt lt, ap (λ (t : ℕ). t / s) (zero-add c))
yields_0_1-from s (suc f) c lt fits = elim (Bool-cases ((c + 1) % 2 ^ 32 == s)) [
  | inl full ↦ rw full (
      omega (
        arith,
        ap (λ (t : ℕ). t / s) (wrap_full s f c lt fits full),
        add-div_right f {k = s} (omega arith),
        ap (λ (t : ℕ). t / s) (add-zero f),
        yields_0_1-from s f 0 (omega arith) fits,
      ))
  | inr more ↦ rw more (
      omega (
        arith,
        ap (λ (t : ℕ). t / s) (wrap_more s f c lt fits),
        yields_0_1-from s f ((c + 1) % 2 ^ 32) (ground (arith, more)) fits,
      ))
]

-- The penalty is 0 and 1 in turn.
yields_0_2-half : (f : ℕ) → (yields_0_2 f 0 ≡ f / 2) × (yields_0_2 f 1 ≡ (f + 1) / 2)
unfolding yields_0_2
yields_0_2-half zero = (omega arith, omega arith)
yields_0_2-half (suc f) = (omega (arith, yields_0_2-half f), omega (arith, yields_0_2-half f))

-- With a spintime above 0, version 0.1 yields once in as many failed exchanges; version 0.2 yields
-- in every second failed round, whatever the spintime.
pub lock-yields :
    (spintime failures : ℕ)
    → 0 < spintime
    → spintime < 2 ^ 32
    → (yields_0_1 spintime failures 0 ≡ failures / spintime)
      × (yields_0_2 failures 0 ≡ failures / 2)
lock-yields spintime failures h fits = (
  omega (
    arith,
    ap (λ (t : ℕ). t / spintime) (add-zero failures),
    yields_0_1-from spintime failures 0 h fits,
  ),
  (yields_0_2-half failures).0,
)
