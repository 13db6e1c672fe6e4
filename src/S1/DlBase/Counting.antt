-- ===== src/S1/DlBase/Counting.antt =====
-- How many of the replaced versions have a call in progress.
use servcraft.Prelude.{
  ℕ, ◌+◌, ◌≤◌, ◌≡◌, ==_iff, refl, true, false, List, [], ◌∷◌, ◌++◌, arith, ltb, if◌then◌else◌,
  update, has, Distinct, length, All,
}
use servcraft.S1.DlBase.{DlWrap}

abbrev pub busy : DlWrap → ℕ
busy w = if ltb 0 w.invcnt then 1 else 0

unfoldable pub alive : (ℕ → DlWrap) → List ℕ → ℕ
alive wraps [] = 0
alive wraps (w ∷ ws) = busy (wraps w) + alive wraps ws

pub alive-update_out :
    (wraps : ℕ → DlWrap) (w : ℕ) (v : DlWrap) (ws : List ℕ)
    → has w ws ≡ false
    → alive (update wraps w v) ws ≡ alive wraps ws
unfolding alive
alive-update_out wraps w v [] h = refl
alive-update_out wraps w v (x ∷ ws) h = ground (arith, alive-update_out wraps w v ws)

pub alive-update :
    (wraps : ℕ → DlWrap) (w : ℕ) (v : DlWrap) (ws : List ℕ)
    → Distinct ws
    → has w ws ≡ true
    → alive (update wraps w v) ws + busy (wraps w) ≡ alive wraps ws + busy v
unfolding alive
alive-update wraps w v [] d h = cc
alive-update wraps w v (x ∷ ws) d h =
    ground (arith, alive-update wraps w v ws, alive-update_out wraps w v ws)

-- A write that leaves a version called or not as it was.
pub alive-update_same :
    (wraps : ℕ → DlWrap) (w : ℕ) (v : DlWrap) (ws : List ℕ)
    → busy v ≡ busy (wraps w)
    → alive (update wraps w v) ws ≡ alive wraps ws
unfolding alive
alive-update_same wraps w v [] h = refl
alive-update_same wraps w v (x ∷ ws) h =
    ground (arith, h, alive-update_same wraps w v ws, ==_iff w x)

pub alive-append :
    (wraps : ℕ → DlWrap) (xs : List ℕ) (w : ℕ)
    → alive wraps (xs ++ w ∷ []) ≡ alive wraps xs + busy (wraps w)
unfolding alive
alive-append wraps [] w = ground arith
alive-append wraps (x ∷ xs) w = omega (arith, alive-append wraps xs w)

pub alive-le : (wraps : ℕ → DlWrap) (ws : List ℕ) → alive wraps ws ≤ length ws
unfolding alive
alive-le wraps [] = omega arith
alive-le wraps (w ∷ ws) = ground (arith, alive-le wraps ws)

pub alive_none :
    (wraps : ℕ → DlWrap) (ws : List ℕ) → alive wraps ws ≡ 0 → All (λ w. (wraps w).invcnt ≡ 0) ws
unfolding alive
alive_none wraps [] e = tt
alive_none wraps (x ∷ ws) e = (ground (arith, e), alive_none wraps ws (omega (arith, e)))

pub alive_none_at :
    (wraps : ℕ → DlWrap) (ws : List ℕ) (w : ℕ)
    → alive wraps ws ≡ 0
    → has w ws ≡ true
    → (wraps w).invcnt ≡ 0
unfolding alive
alive_none_at wraps [] w e h = cc
alive_none_at wraps (x ∷ ws) w e h = ground (arith, alive_none_at wraps ws w)
