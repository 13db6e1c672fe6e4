-- ===== src/P7r/Carriers/Boxes.antt =====
-- p7r/p7r_uthread.c: what a message buffer is relied on for, and what one post and one refresh do to
-- what waits between two carriers.
use servcraft.Prelude.{
  ℕ, zero, suc, ◌≡◌, ◌∙◌, ap, refl, sym, Bool, true, false, ◌&&◌, Option, none, some, List, [], ◌∷◌,
  ◌++◌, ◌==◌, length, length-append, arith, append-nil, ltb, if◌then◌else◌, is_some, Bool-cases,
  inl, inr, ==_iff,
}
use servcraft.P7r.Scheduler.{Request}
use servcraft.P7r.Scheduler.Bus.{BusEvent, TimerCore, messages}
use servcraft.P7r.Carriers.{BoxCalls, World, post, retry, retries, collect, refresh}

-- What a message buffer is relied on for: it holds a sequence of messages; a message that is
-- produced goes to its end; what it gives was its beginning.
pub record IsBox (B : Type 0) ⦃calls : BoxCalls B⦄ : Type 0 where
  pub pending : B → List Request
  pub pending_produce : (q : Request) (b : B) → pending (calls.produce q b) ≡ pending b ++ q ∷ []
  pub consume_pending :
      (b : B) → messages (calls.consume b).0 ++ pending (calls.consume b).1 ≡ pending b

messages_none : (o : Option (List Request)) → is_some o ≡ false → messages o ≡ []
messages_none none h = refl
messages_none (some qs) h = cc

not_below : (n : ℕ) → ltb n 0 ≡ false
not_below n = ground arith

not_self : (n : ℕ) → ltb n n ≡ false
not_self n = ground arith

-- The messages of a source among what the boxes give.
unfoldable pub given : List (Option (List Request) × Bool) → ℕ → List Request
given [] src = []
given ((box, consuming) ∷ boxes) zero = messages box
given (box ∷ boxes) (suc src) = given boxes src

pub given_last :
    (boxes : List (Option (List Request) × Bool)) (box : Option (List Request)) (consuming : Bool)
    (src : ℕ)
    → given (boxes ++ (box, consuming) ∷ []) src
      ≡ (if length boxes == src then messages box else given boxes src)
unfolding given
given_last [] box consuming zero = refl
given_last [] box consuming (suc src) = ground arith
given_last (b ∷ boxes) box consuming zero = ground arith
given_last (b ∷ boxes) box consuming (suc src) = given_last boxes box consuming src ∙ ground arith

module _ {B : Type 0} ⦃calls : BoxCalls B⦄ where
  -- What a refresh of a carrier gives its scheduler from the box of a source.
  abbrev pub takes : World B → (self src : ℕ) → List Request
  takes w self src = given (collect w.n_carriers (w.boxes self)).0 src

module _ {B : Type 0} ⦃calls : BoxCalls B⦄ (laws : IsBox B) where
  open laws use {pending, pending_produce, consume_pending}

  -- The messages that a loop over one box gives were at its beginning.
  retry-pending : (n : ℕ) (b : B) → messages (retry n b).0 ++ pending (retry n b).1 ≡ pending b
  unfolding retry
  retry-pending zero b = consume_pending b
  retry-pending (suc n) b = elim (Bool-cases (is_some (calls.consume b).0)) [
    | inl given ↦ rw given (consume_pending b)
    | inr empty ↦ rw empty (
        retry-pending n (calls.consume b).1
        ∙ sym
            (ap (λ ms. ms ++ pending (calls.consume b).1) (messages_none (calls.consume b).0 empty))
        ∙ consume_pending b)
  ]

  -- What is left of a box after the loop over the boxes of the first n carriers.
  left-collect :
      (n : ℕ) (boxes : ℕ → B) (src : ℕ)
      → (collect n boxes).1 src ≡ (if ltb src n then (retry retries (boxes src)).1 else boxes src)
  unfolding collect
  left-collect zero boxes src = rw (not_below src) refl
  left-collect (suc n) boxes src = elim (Bool-cases (n == src)) [
    | inl last ↦
        let e : n ≡ src = (==_iff n src).0 last in
        let below : ltb src (suc n) ≡ true = ground (arith, e) in
        let same : (collect n boxes).1 n ≡ boxes src =
          left-collect n boxes n ∙ rw (not_self n) (ap boxes e) in
        rw (last, below) (ap (λ (b : B). (retry retries b).1) same)
    | inr other ↦
        let below : ltb src (suc n) ≡ ltb src n = ground (arith, other) in
        rw (other, below) (left-collect n boxes src)
  ]

  pub length-collect : (n : ℕ) (boxes : ℕ → B) → length (collect n boxes).0 ≡ n
  unfolding collect
  length-collect zero boxes = refl
  length-collect (suc n) boxes =
      length-append (collect n boxes).0 _ ∙ rw (length-collect n boxes) (omega arith)

  -- What the loop over the boxes gives of each.
  given-collect :
      (n : ℕ) (boxes : ℕ → B) (src : ℕ)
      → given (collect n boxes).0 src
        ≡ (if ltb src n then messages (retry retries (boxes src)).0 else [])
  unfolding collect given
  given-collect zero boxes src = rw (not_below src) refl
  given-collect (suc n) boxes src =
      given_last (collect n boxes).0 _ _ src
      ∙ rw (length-collect n boxes) (elim (Bool-cases (n == src)) [
        | inl last ↦
            let e : n ≡ src = (==_iff n src).0 last in
            let below : ltb src (suc n) ≡ true = ground (arith, e) in
            let same : (collect n boxes).1 n ≡ boxes src =
              left-collect n boxes n ∙ rw (not_self n) (ap boxes e) in
            rw (last, below) (ap (λ (b : B). messages (retry retries b).0) same)
        | inr other ↦
            let below : ltb src (suc n) ≡ ltb src n = ground (arith, other) in
            rw (other, below) (given-collect n boxes src)
      ])

  pub refresh-pending :
      (self : ℕ) (current_time : ℕ) (peeks : List TimerCore) (events : List BusEvent) (w : World B)
      (dst src : ℕ)
      → (if self == dst then takes w self src else [])
          ++ pending ((refresh self current_time peeks events w).boxes dst src)
        ≡ pending (w.boxes dst src)
  unfolding refresh
  refresh-pending self current_time peeks events w dst src = elim (Bool-cases (self == dst)) [
    | inl same ↦
        let e : self ≡ dst = (==_iff self dst).0 same in
        rw
          (
            same,
            left-collect w.n_carriers (w.boxes self) src,
            e,
            given-collect w.n_carriers (w.boxes dst) src,
          )
          (elim (Bool-cases (ltb src w.n_carriers)) [
            | inl below ↦ rw below (retry-pending retries (w.boxes dst src))
            | inr above ↦ rw above refl
          ])
    | inr other ↦ rw other refl
  ]

  pub post-pending :
      (d s : ℕ) (q : Request) (w : World B) (dst src : ℕ)
      → pending ((post d s q w).boxes dst src)
        ≡ pending (w.boxes dst src) ++ (if (d == dst) && (s == src) then q ∷ [] else [])
  unfolding post
  post-pending d s q w dst src = elim (Bool-cases (d == dst)) [
    | inl same ↦ elim (Bool-cases (s == src)) [
      | inl here ↦
          rw (same, here, (==_iff d dst).0 same, (==_iff s src).0 here)
            (pending_produce q (w.boxes dst src))
      | inr other ↦ rw (same, other, (==_iff d dst).0 same) (sym (append-nil _))
    ]
    | inr away ↦ rw away (sym (append-nil _))
  ]
