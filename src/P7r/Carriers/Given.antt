-- ===== src/P7r/Carriers/Given.antt =====
-- p7r/p7r_uthread.c: what a refresh of the bus puts into the request queue of its scheduler.
use servcraft.Prelude.{
  ℕ, zero, suc, ◌<◌, ◌≡◌, ◌∙◌, ap, refl, sym, Bool, true, false, Option, some, List, [], ◌∷◌, ◌++◌,
  append-nil, append_assoc, arith, Bool-cases, inl, inr, ==_self, ==_of_ne, leb,
}
use servcraft.P7r.Scheduler.{Scheduler, Request, reenable, detach, is_running}
use servcraft.P7r.Scheduler.Bus.{
  Bus, BusEvent, TimerCore, messages, bus_refresh, refresh_with, expire_all, respond, respond_all,
  notification, delegation, take_boxes, bury,
}
use servcraft.P7r.Carriers.{BoxCalls, World, retry, retries, collect, refresh}
use servcraft.P7r.Carriers.Boxes.{IsBox, given, given_last, takes, length-collect}

request_queue-reenable : (x : ℕ) (s : Scheduler) → (reenable x s).request_queue ≡ s.request_queue
unfolding reenable detach
request_queue-reenable x s = elim (Bool-cases (is_running (s.uthreads x).status)) [
  | inl runs ↦ rw runs refl
  | inr waits ↦ rw waits refl
]

request_queue-expire_all :
    (current_time : ℕ) (ts : List TimerCore) (s : Scheduler)
    → (expire_all current_time ts s).request_queue ≡ s.request_queue
unfolding expire_all
request_queue-expire_all current_time [] s = refl
request_queue-expire_all current_time (t ∷ ts) s =
    elim (Bool-cases (leb t.timestamp current_time)) [
      | inl due ↦ rw due (
          request_queue-expire_all current_time ts (reenable t.uthread s)
          ∙ request_queue-reenable t.uthread s)
      | inr later ↦ rw later refl
    ]

request_queue-respond :
    (e : BusEvent) (s : Scheduler) → (respond e s).request_queue ≡ s.request_queue
unfolding respond
request_queue-respond notification s = refl
request_queue-respond (delegation true x) s = refl
request_queue-respond (delegation false x) s = request_queue-reenable x s

request_queue-respond_all :
    (es : List BusEvent) (s : Scheduler) → (respond_all es s).request_queue ≡ s.request_queue
unfolding respond_all
request_queue-respond_all [] s = refl
request_queue-respond_all (e ∷ es) s =
    request_queue-respond_all es (respond e s) ∙ request_queue-respond e s

-- The messages of all boxes, one box after the other.
all_messages : List (Option (List Request) × Bool) → List Request
all_messages [] = []
all_messages ((box, consuming) ∷ boxes) = messages box ++ all_messages boxes

request_queue-take_boxes :
    (boxes : List (Option (List Request) × Bool)) (s : Scheduler)
    → (take_boxes boxes s).request_queue ≡ s.request_queue ++ all_messages boxes
unfolding take_boxes all_messages
request_queue-take_boxes [] s = sym (append-nil s.request_queue)
request_queue-take_boxes ((box, consuming) ∷ boxes) s =
    request_queue-take_boxes boxes _
    ∙ append_assoc s.request_queue (messages box) (all_messages boxes)

request_queue-bus_refresh :
    (b : Bus) (es : List BusEvent) (s : Scheduler)
    → b.events ≡ some es
    → (bus_refresh b s).0.request_queue ≡ s.request_queue ++ all_messages b.boxes
unfolding bus_refresh refresh_with bury
request_queue-bus_refresh b es s e = rw e (
    request_queue-take_boxes b.boxes _
    ∙ ap (λ (qs : List Request). qs ++ all_messages b.boxes)
        (request_queue-respond_all es _ ∙ request_queue-expire_all b.current_time b.peeks _))

all_messages_last :
    (boxes : List (Option (List Request) × Bool)) (box : Option (List Request)) (consuming : Bool)
    → all_messages (boxes ++ (box, consuming) ∷ []) ≡ all_messages boxes ++ messages box
unfolding all_messages
all_messages_last [] box consuming = append-nil (messages box)
all_messages_last ((other, before) ∷ boxes) box consuming =
    ap (λ (qs : List Request). messages other ++ qs) (all_messages_last boxes box consuming)
    ∙ sym (append_assoc (messages other) (all_messages boxes) (messages box))

-- What each of the first n carriers sent, one carrier after the other.
unfoldable pub from_all : ℕ → (ℕ → List Request) → List Request
from_all zero sent = []
from_all (suc n) sent = from_all n sent ++ sent n

from_all_same :
    (n : ℕ) (f g : ℕ → List Request) → ((i : ℕ) → i < n → f i ≡ g i) → from_all n f ≡ from_all n g
unfolding from_all
from_all_same zero f g h = refl
from_all_same (suc n) f g h =
    rw (from_all_same n f g (λ i lt. h i (omega (arith, lt))), h n (omega arith)) refl

module _ {B : Type 0} ⦃calls : BoxCalls B⦄ (laws : IsBox B) where
  all_messages-collect :
      (n : ℕ) (boxes : ℕ → B)
      → all_messages (collect n boxes).0 ≡ from_all n (given (collect n boxes).0)
  unfolding collect from_all all_messages
  all_messages-collect zero boxes = refl
  all_messages-collect (suc n) boxes =
      let before = (collect n boxes).0 in
      let box = (retry retries ((collect n boxes).1 n)).0 in
      let same : (i : ℕ) → i < n → given before i ≡ given (collect (suc n) boxes).0 i = λ i lt.
        sym (
          given_last before box _ i
          ∙ rw (length-collect laws n boxes, ==_of_ne n i (λ e. absurd (omega (arith, e, lt))))
              refl) in
      let last : given (collect (suc n) boxes).0 n ≡ messages box =
        given_last before box _ n ∙ rw (length-collect laws n boxes, ==_self n) refl in
      all_messages_last before box _
      ∙ rw (sym last) (
          ap (λ (qs : List Request). qs ++ given (collect (suc n) boxes).0 n)
            (all_messages-collect n boxes ∙ from_all_same n _ _ same))

  -- A refresh puts what it takes from the boxes behind the requests that its scheduler has.
  pub request_queue-refresh :
      (self current_time : ℕ) (peeks : List TimerCore) (events : List BusEvent) (w : World B)
      → ((refresh self current_time peeks events w).schedulers self).request_queue
        ≡ (w.schedulers self).request_queue ++ from_all w.n_carriers (takes w self)
  unfolding refresh
  request_queue-refresh self current_time peeks events w = rw (==_self self) (
      request_queue-bus_refresh _ events (w.schedulers self) refl
      ∙ ap (λ (qs : List Request). (w.schedulers self).request_queue ++ qs)
          (all_messages-collect w.n_carriers (w.boxes self)))
