-- ===== src/P7r/Carriers/Balance.antt =====
-- p7r/p7r_uthread.c and p7r/p7r_api.c: requests go round the carriers.
use native.Mathlib.Nat.{div-add-mod, mod-lt, mod-eq_of_lt}
use servcraft.Prelude.{
  ℕ, zero, suc, ◌+◌, ◌/◌, ◌%◌, ◌^◌, ◌≤◌, ◌<◌, ◌≡◌, ◌≢◌, ◌∙◌, ap, refl, sym, Bool, true, false,
  Option, none, some, arith, ◌==◌, if◌then◌else◌, Bool-cases, inl, inr, mul_mono_left, ==_of_ne,
  leb, ltb, ==_iff, ==_self,
}
use servcraft.P7r.Scheduler.{Request}
use servcraft.P7r.Carriers.{
  BoxCalls, World, post, balanced_target, create_foreign, executed, execute,
}

-- Two of n consecutive numbers differ in what is left of them by n.
mod_apart : (a b n : ℕ) → a < b → b < a + n → a % n ≢ b % n
mod_apart a b n lt near e = elim (Bool-cases (leb (b / n) (a / n))) [
  | inl le ↦
      omega
        (arith, div-add-mod a n, div-add-mod b n, e, mul_mono_left (b / n) (a / n) n (ground arith))
  | inr gt ↦ omega (
    arith,
    div-add-mod a n,
    div-add-mod b n,
    e,
    mul_mono_left (a / n + 1) (b / n) n (ground arith),
  )
]

-- A request with no future, as p7r_execute makes it.
abbrev pub plain : Request → Request
plain q = record q { future = none }

module _ {B : Type 0} ⦃calls : BoxCalls B⦄ where
  -- The carrier that the next call of p7r_execute takes.
  abbrev pub target_of : ℕ → World B → ℕ
  target_of balance w = balance % w.n_carriers

  -- The carriers after a call that succeeded: nothing where it reported a failure.
  abbrev pub world_of : Option (World B × Bool) → Option (World B)
  world_of none = none
  world_of (some (w, true)) = some w
  world_of (some (w, false)) = none

  by_room :
      (b : Bool) (v u : World B)
      → ◌≡◌ {A = Option (World B × Bool)}
          (if◌then◌else◌ {A = Option (World B × Bool)} b (some (v, true)) (some (u, false)))
          (some ((if b then v else u), b))
  by_room true v u = refl
  by_room false v u = refl

  pub executed-Posted :
      (has_room : Bool) (q : Request) (w : World B)
      → 0 < w.n_carriers
      → w.balance_index + 1 < 2 ^ 32
      → let t = target_of (w.balance_index + 1) w in
        let v = record w { balance_index = w.balance_index + 1 } in
        executed has_room q (balanced_target w)
        ≡ some ((if has_room then post t t q v else v), has_room)
  unfolding balanced_target executed create_foreign
  executed-Posted has_room q w pos narrow =
      let n = w.n_carriers in
      let next : (w.balance_index + 1) % 2 ^ 32 ≡ w.balance_index + 1 = mod-eq_of_lt narrow in
      let below : (w.balance_index + 1) % n < n = mod-lt (w.balance_index + 1) pos in
      let some_carriers : (n == 0) ≡ false = ==_of_ne n 0 (λ e. absurd (omega (arith, pos, e))) in
      let inside : ltb ((w.balance_index + 1) % n) n ≡ true = ground (arith, below) in
      rw (some_carriers, next, inside, mod-eq_of_lt below) (by_room has_room _ _)

  execute-Posted :
      (q : Request) (w : World B)
      → 0 < w.n_carriers
      → w.balance_index + 1 < 2 ^ 32
      → world_of (execute true q w)
        ≡ some (
            post
              (target_of (w.balance_index + 1) w)
              (target_of (w.balance_index + 1) w)
              (plain q)
              (record w { balance_index = w.balance_index + 1 }))
  unfolding execute
  execute-Posted q w pos narrow = ap world_of (executed-Posted true (plain q) w pos narrow)

  -- So many calls of p7r_execute in turn, each with room for its message; none where one fails.
  abbrev pub and_then : Option (World B) → (World B → Option (World B)) → Option (World B)
  and_then none f = none
  and_then (some w) f = f w

  unfoldable pub executes : ℕ → (ℕ → Request) → World B → Option (World B)
  executes zero qs w = some w
  executes (suc k) qs w =
      and_then (executes k qs w) (λ (v : World B). world_of (execute true (qs k) v))

  -- What k calls leave: no box but those of the k next targets is written, and each of these once.
  record IsBalanced (k : ℕ) (qs : ℕ → Request) (w v : World B) : Type 0 where
    counted : v.balance_index ≡ w.balance_index + k
    carriers : v.n_carriers ≡ w.n_carriers
    written :
        (i : ℕ)
        → i < k
        → v.boxes (target_of (w.balance_index + i + 1) w) (target_of (w.balance_index + i + 1) w)
          ≡ calls.produce (plain (qs i)) (
              w.boxes
                (target_of (w.balance_index + i + 1) w)
                (target_of (w.balance_index + i + 1) w))
    kept :
        (c d : ℕ)
        → ((i : ℕ) → i < k → target_of (w.balance_index + i + 1) w ≢ c)
        → v.boxes c d ≡ w.boxes c d

  -- Two of the next targets, of as many calls as there are carriers, are apart.
  targets_apart :
      (w : World B) (i j k : ℕ)
      → i < j
      → j < k
      → k ≤ w.n_carriers
      → target_of (w.balance_index + i + 1) w ≢ target_of (w.balance_index + j + 1) w
  targets_apart w i j k lt below few =
      mod_apart (w.balance_index + i + 1) (w.balance_index + j + 1) w.n_carriers (omega (arith, lt))
        (omega (arith, below, few))

  IsBalanced-step :
      (k : ℕ) (qs : ℕ → Request) (w u : World B) (t : ℕ)
      → suc k ≤ w.n_carriers
      → t ≡ target_of (w.balance_index + k + 1) w
      → IsBalanced k qs w u
      → IsBalanced
          (suc k)
          qs
          w
          (post t t (plain (qs k)) (record u { balance_index = u.balance_index + 1 }))
  unfolding post
  IsBalanced-step k qs w u t few e before = record {
    counted = omega (arith, before.counted);
    carriers = before.carriers;
    written = λ i h. elim (Bool-cases (i == k)) [
      | inl last ↦
          rw ((==_iff i k).0 last, ← e, ==_self t, ==_self t)
            (ap (calls.produce (plain (qs k))) (
              before.kept t t (λ j lt q. targets_apart w j k (suc k) lt (omega arith) few (q ∙ e))))
      | inr earlier ↦
          let lt : i < k = ground (arith, earlier, h) in
          let other : (t == target_of (w.balance_index + i + 1) w) ≡ false =
            ==_of_ne _ _ (λ q. targets_apart w i k (suc k) lt (omega arith) few (sym q ∙ e)) in
          rw other (before.written i lt)
    ];
    kept = λ c d h.
        let other : (t == c) ≡ false = ==_of_ne _ _ (λ q. h k (omega arith) (sym e ∙ q)) in
        rw other (before.kept c d (λ i lt. h i (omega (arith, lt))));
  }

  target_same :
      (w u : World B) (k : ℕ)
      → u.balance_index ≡ w.balance_index + k
      → u.n_carriers ≡ w.n_carriers
      → target_of (u.balance_index + 1) u ≡ target_of (w.balance_index + k + 1) w
  target_same w u k b n = rw (b, n) refl

  balanced :
      (k : ℕ) (qs : ℕ → Request) (w : World B)
      → 0 < w.n_carriers
      → k ≤ w.n_carriers
      → w.balance_index + k < 2 ^ 32
      → (v : World B) × (executes k qs w ≡ some v) × IsBalanced k qs w v
  unfolding executes
  balanced zero qs w pos few narrow = (
    w,
    refl,
    record {
      counted = omega arith;
      carriers = refl;
      written = λ i h. absurd (omega (arith, h));
      kept = λ c d h. refl;
    },
  )
  balanced (suc k) qs w pos few narrow =
      let (u, ran, before) = balanced k qs w pos (omega (arith, few)) (omega (arith, narrow)) in
      (
        post (target_of (u.balance_index + 1) u) (target_of (u.balance_index + 1) u) (plain (qs k))
            (record u { balance_index = u.balance_index + 1 }),
        rw ran (
            execute-Posted (qs k) u (omega (arith, before.carriers, pos))
              (omega (arith, before.counted, narrow))),
        IsBalanced-step k qs w u (target_of (u.balance_index + 1) u) few
            (target_same w u k before.counted before.carriers) before,
      )

  -- At most as many calls of p7r_execute in turn as there are carriers, each with room for its
  -- message and without wrap of the balance index: all of them succeed, and the i-th request is put
  -- to the end of the box of its own target, in which the other calls put none.
  pub executes-Balanced :
      (k : ℕ) (qs : ℕ → Request) (w : World B)
      → 0 < w.n_carriers
      → k ≤ w.n_carriers
      → w.balance_index + k < 2 ^ 32
      → (i : ℕ) → i < k
      → let t = target_of (w.balance_index + i + 1) w in
        (v : World B) × (executes k qs w ≡ some v)
        × (v.balance_index ≡ w.balance_index + k)
        × (v.boxes t t ≡ calls.produce (plain (qs i)) (w.boxes t t))
  executes-Balanced k qs w pos few narrow i h =
      let (v, ran, is) = balanced k qs w pos few narrow in (v, ran, is.counted, is.written i h)
