-- ===== src/P7/Runtime/Queues/Created.antt =====
-- p7/p7impl.c: coro_create_request keeps the lists sound, on one's own carrier and on another one.
use mathlib.Core.Path.{subst}
use servcraft.Prelude.{
  ℕ, ◌+◌, ◌%◌, ◌^◌, ◌≡◌, refl, sym, ◌∙◌, ap, Bool, true, false, Option, none, some, List, [], ◌∷◌,
  arith, ◌==◌, Bool-cases, inl, inr, some_eq,
}
use servcraft.P7.Runtime.{CoroRq, Carrier, own}
use servcraft.P7.Runtime.Mail.{notify}
use servcraft.P7.Runtime.Requests.{
  create_request, CreateStatus, at_home, with_status, next_load, hand_over, rq_new, rq_new_from,
  rq_new_inner, spawn,
}
use servcraft.P7.Runtime.Queues.{IsSound, beside-IsSound}
use servcraft.P7.Runtime.Queues.Spawned.{spawn-Keeps}
use servcraft.P7.Runtime.Queues.New.{Keeps}
use servcraft.P7.Runtime.Queues.Turn.{IsPicked}
use servcraft.P7.Runtime.Queues.Ready.{IsReady}

-- A new coroutine, or a request for one, by what p7_coro_rq_new returned.
rq_new-IsReady :
    (entry : Option ℕ) (arg stack_size : ℕ) (has_room : Bool) (i : ℕ) (rqs : List CoroRq)
    {c : Carrier}
    → IsReady c
    → IsReady (hand_over i (rq_new_from entry arg stack_size has_room rqs c)).0
unfolding hand_over rq_new_from rq_new_inner notify
rq_new-IsReady entry arg stack_size true i [] r = (beside-IsSound r.0 _ _ _ _ _ _, r.1)
rq_new-IsReady entry arg stack_size false i [] r = r
rq_new-IsReady entry arg stack_size has_room i (rq ∷ rqs) r = (beside-IsSound r.0 _ _ _ _ _ _, r.1)

pub first-IsReady :
    {B : Type 0} {r : Carrier × B} {d : Carrier} {st : B}
    → some r ≡ some (d, st)
    → IsReady r.0
    → IsReady d
first-IsReady {B} e h = subst IsReady (ap (λ (q : Carrier × B). q.0) (some_eq e)) h

with_status-IsReady :
    (o : Option Carrier) {d : Carrier} {st : CreateStatus}
    → ((b : Carrier) → o ≡ some b → IsReady b)
    → with_status at_home o ≡ some (d, st)
    → IsReady d
with_status-IsReady none h e = cc
with_status-IsReady (some b) h e = first-IsReady e (h b refl)

pub Keeps-IsReady : (c d : Carrier) → IsPicked c → IsSound d × Keeps c d → IsReady d
Keeps-IsReady c d p k = (
  k.0,
  λ x r. elim (Bool-cases (d.coros x).resched) [
    | inl set ↦ absurd (ground (arith, p x (sym k.1.0 ∙ r), k.1.1 x set))
    | inr unset ↦ unset
  ],
)

pub create_request-IsReady :
    {c d : Carrier} {st : CreateStatus}
    → IsReady c
    → (entry : Option ℕ) (arg stack_size : ℕ) (has_room : Bool)
    → create_request entry arg stack_size has_room c ≡ some (d, st)
    → IsReady d
unfolding create_request rq_new
create_request-IsReady {c} {d} {st} r entry arg stack_size has_room e =
    let counted : IsReady (record c { next_carrier = (c.next_carrier + 1) % 2 ^ 32 }) =
      (beside-IsSound r.0 _ _ _ _ _ _, r.1) in
    elim (Bool-cases (c.carriers (next_load c)).alive) [
      | inr down ↦ first-IsReady (rw (create_request, down) at e) counted
      | inl up ↦ elim (Bool-cases (next_load c == c.carrier_id)) [
        | inl home ↦
            with_status-IsReady
              (spawn entry arg stack_size
                (record c { next_carrier = (c.next_carrier + 1) % 2 ^ 32 }))
              (λ b q.
                Keeps-IsReady (record c { next_carrier = (c.next_carrier + 1) % 2 ^ 32 }) b
                  counted.1 (spawn-Keeps counted.0 entry arg stack_size q))
              (rw (create_request, up, home) at e)
        | inr away ↦
            first-IsReady (rw (create_request, up, away) at e) (
              rq_new-IsReady entry arg stack_size has_room (next_load c) (own c).rq_pool_tl counted)
      ]
    ]
