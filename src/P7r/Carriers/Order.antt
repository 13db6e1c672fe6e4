-- ===== src/P7r/Carriers/Order.antt =====
-- p7r/p7r_uthread.c: between two carriers no request is lost, doubled or overtaken, over any buffer
-- that gives its entries in their order.
use mathlib.Core.Path.{◌≡⟨◌⟩◌, ◌∎}
use servcraft.Prelude.{
  ℕ, ◌≡◌, ◌∙◌, ap, refl, sym, ◌&&◌, List, [], ◌∷◌, ◌++◌, ◌==◌, append-nil, append_assoc,
  if◌then◌else◌,
}
use servcraft.P7r.Scheduler.{Scheduler, Request}
use servcraft.P7r.Scheduler.Bus.{BusEvent, TimerCore}
use servcraft.P7r.Carriers.{BoxCalls, World, post, refresh}
use servcraft.P7r.Carriers.Boxes.{IsBox, takes, refresh-pending, post-pending}
use servcraft.P7r.Carriers.Given.{from_all, request_queue-refresh}

-- A request that is posted, a refresh of a carrier, or work of the schedulers and of the callers
-- that touches no box.
pub data Event : Type 0 where
  posts : (dst src : ℕ) → Request → Event
  refreshes : (self current_time : ℕ) → List TimerCore → List BusEvent → Event
  works : (schedulers : ℕ → Scheduler) (balance_index : ℕ) → Event

-- What is posted from one carrier to another.
unfoldable pub posted : (dst src : ℕ) → List Event → List Request
posted dst src [] = []
posted dst src (posts d s q ∷ es) =
    (if (d == dst) && (s == src) then q ∷ [] else []) ++ posted dst src es
posted dst src (refreshes self now peeks events ∷ es) = posted dst src es
posted dst src (works schedulers balance_index ∷ es) = posted dst src es

module _ {B : Type 0} ⦃calls : BoxCalls B⦄ where
  unfoldable pub happen : Event → World B → World B
  happen (posts d s q) w = post d s q w
  happen (refreshes self now peeks events) w = refresh self now peeks events w
  happen (works schedulers balance_index) w = record w {
    schedulers = schedulers;
    balance_index = balance_index;
  }

  unfoldable pub run : List Event → World B → World B
  run [] w = w
  run (e ∷ es) w = run es (happen e w)

  -- What one event takes out of a box.
  unfoldable pub takes_out : (dst src : ℕ) → Event → World B → List Request
  takes_out dst src (posts d s q) w = []
  takes_out dst src (refreshes self now peeks events) w =
      if self == dst then takes w self src else []
  takes_out dst src (works schedulers balance_index) w = []

  -- A refresh of a carrier puts what it takes from all carriers to the end of the requests of its
  -- scheduler.
  abbrev pub Queued : Event → World B → Type 0
  Queued (posts d s q) w = Unit
  Queued (refreshes self now peeks events) w =
      ((happen (refreshes self now peeks events) w).schedulers self).request_queue
      ≡ (w.schedulers self).request_queue ++ from_all w.n_carriers (takes w self)
  Queued (works schedulers balance_index) w = Unit

  abbrev pub AllQueued : List Event → World B → Type 0
  AllQueued [] w = Unit
  AllQueued (e ∷ es) w = Queued e w × AllQueued es (happen e w)

  unfoldable pub taken : (dst src : ℕ) → List Event → World B → List Request
  taken dst src [] w = []
  taken dst src (e ∷ es) w = takes_out dst src e w ++ taken dst src es (happen e w)

posted_cons :
    (dst src : ℕ) (e : Event) (es : List Event)
    → posted dst src (e ∷ es) ≡ posted dst src (e ∷ []) ++ posted dst src es
unfolding posted
posted_cons dst src (posts d s q) es =
    ap (λ (qs : List Request). qs ++ posted dst src es)
      (sym (append-nil (if (d == dst) && (s == src) then q ∷ [] else [])))
posted_cons dst src (refreshes self now peeks events) es = refl
posted_cons dst src (works schedulers balance_index) es = refl

module _ {B : Type 0} ⦃calls : BoxCalls B⦄ (laws : IsBox B) where
  open laws use {pending}

  happen-pending :
      (dst src : ℕ) (e : Event) (w : World B)
      → pending (w.boxes dst src) ++ posted dst src (e ∷ [])
        ≡ takes_out dst src e w ++ pending ((happen e w).boxes dst src)
  unfolding happen takes_out posted
  happen-pending dst src (posts d s q) w =
      ap (λ (qs : List Request). pending (w.boxes dst src) ++ qs) (append-nil _)
      ∙ sym (post-pending laws d s q w dst src)
  happen-pending dst src (refreshes self now peeks events) w =
      append-nil _ ∙ sym (refresh-pending laws self now peeks events w dst src)
  happen-pending dst src (works schedulers balance_index) w = append-nil _

  in_order :
      (dst src : ℕ) (es : List Event) (w : World B)
      → pending (w.boxes dst src) ++ posted dst src es
        ≡ taken dst src es w ++ pending ((run es w).boxes dst src)
  unfolding run taken posted
  in_order dst src [] w = append-nil _
  in_order dst src (e ∷ es) w =
      let waits = pending (w.boxes dst src) in
      let next = happen e w in
      waits ++ posted dst src (e ∷ es)
      ≡⟨ ap (λ (qs : List Request). waits ++ qs) (posted_cons dst src e es) ⟩
        waits ++ (posted dst src (e ∷ []) ++ posted dst src es)
      ≡⟨ sym (append_assoc waits (posted dst src (e ∷ [])) (posted dst src es)) ⟩
        (waits ++ posted dst src (e ∷ [])) ++ posted dst src es
      ≡⟨ ap (λ (qs : List Request). qs ++ posted dst src es) (happen-pending dst src e w) ⟩
        (takes_out dst src e w ++ pending (next.boxes dst src)) ++ posted dst src es
      ≡⟨ append_assoc (takes_out dst src e w) (pending (next.boxes dst src)) (posted dst src es) ⟩
        takes_out dst src e w ++ (pending (next.boxes dst src) ++ posted dst src es)
      ≡⟨ ap (λ (qs : List Request). takes_out dst src e w ++ qs) (in_order dst src es next) ⟩
        takes_out dst src e w ++ (taken dst src es next ++ pending ((run es next).boxes dst src))
      ≡⟨ sym (append_assoc (takes_out dst src e w) (taken dst src es next) _) ⟩
        (takes_out dst src e w ++ taken dst src es next) ++ pending ((run es next).boxes dst src) ∎

  queued : (e : Event) (w : World B) → Queued e w
  unfolding happen
  queued (posts d s q) w = tt
  queued (refreshes self now peeks events) w = request_queue-refresh laws self now peeks events w
  queued (works schedulers balance_index) w = tt

  all_queued : (es : List Event) (w : World B) → AllQueued es w
  all_queued [] w = tt
  all_queued (e ∷ es) w = (queued e w, all_queued es (happen e w))

  -- Over a message buffer that gives its messages in their order: what waits between two carriers,
  -- followed by what is posted, is what the refreshes of the destination take, followed by what waits
  -- then, whatever the other carriers post and take; and each refresh puts what it takes from the
  -- carriers, one carrier after the other, to the end of the requests of its scheduler. So nothing is
  -- lost, doubled or overtaken.
  pub taken-posted :
      (dst src : ℕ) (es : List Event) (w : World B)
      → (pending (w.boxes dst src) ++ posted dst src es
          ≡ taken dst src es w ++ pending ((run es w).boxes dst src))
        × AllQueued es w
  taken-posted dst src es w = (in_order dst src es w, all_queued es w)
