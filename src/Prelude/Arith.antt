-- ===== src/Prelude/Arith.antt =====
-- Products in an order.
use Prim.Native.Nat.{ℕ, ◌*◌, ◌≤◌}
use native.Mathlib.Omega.{arith}

pub mul_mono_left : (a b c : ℕ) → a ≤ b → a * c ≤ b * c
mul_mono_left a b c h = grind arith

pub mul_mono_right : (a b c : ℕ) → a ≤ b → c * a ≤ c * b
mul_mono_right a b c h = grind arith
