-- ===== src/Prelude/Maps.antt =====
-- Total maps from numbers, written at one place at a time.
use Prim.Native.Nat.{ℕ}
use servcraft.Prelude.Tests.{◌==◌, if◌then◌else◌}

-- `f[i] = v`
abbrev pub update {ℓ} : {A : Type ℓ} → (ℕ → A) → ℕ → A → ℕ → A
update f i v j = if i == j then v else f j
