-- ===== src/P7r/Carriers/Submit.antt =====
-- p7r/p7r_api.c: p7r_submit, from the arena of futures to the message box of a carrier.

use servcraft.Prelude.{
  ℕ, ◌+◌, ◌^◌, ◌<◌, ◌≡◌, refl, Bool, true, false, Option, none, some, List, ◌∷◌, if◌then◌else◌,
  ==_self,
}
use servcraft.Util.Arena.{Arena, get}
use servcraft.Util.Arena.Lives.{IsSound, IsNew, get-IsSound, get_undefined, Given}
use servcraft.P7r.Scheduler.{Request}
use servcraft.P7r.Futures.{Future}
use servcraft.P7r.Carriers.{BoxCalls, World, post, submitted, submit_with, submit}
use servcraft.P7r.Carriers.Balance.{target_of, executed-Posted}

module _ {B : Type 0} ⦃calls : BoxCalls B⦄ where
  -- What p7r_submit leaves: it is undefined only where the arena has no slots; with a future, it is one that was not in use, new, and the request with
  -- it is at the end of the box of the next target where its message could be allocated.
  abbrev pub Submitted :
      (n_slots : ℕ)
      → Bool
      → Request
      → List ℕ
      → (ℕ → Future)
      → World B
      → Option (Option ℕ × Arena × (ℕ → Future) × World B)
      → Type 0
  Submitted n_slots has_room q live futures w none = n_slots ≡ 0
  Submitted n_slots has_room q live futures w (some (none, b, fs, v)) =
      IsSound b live × (fs ≡ futures) × (v ≡ w)
  Submitted n_slots has_room q live futures w (some (some x, b, fs, v)) =
      let t = target_of (w.balance_index + 1) w in
      IsSound b (x ∷ live)
      × (fs x ≡ record { result = 0; error_code = 0; posts = 0 })
      × (v.boxes t t ≡ (
          if has_room
          then calls.produce (record q { future = some x }) (w.boxes t t)
          else w.boxes t t))

  module _ (n_slots : ℕ) (has_room : Bool) (q : Request) (live : List ℕ) (futures : ℕ → Future)
      (w : World B) (pos : 0 < w.n_carriers) (narrow : w.balance_index + 1 < 2 ^ 32) where
    posted_box :
        (b : Bool) (t : ℕ) (x : ℕ) (v : World B)
        → (if b then post t t (record q { future = some x }) v else v).boxes t t
          ≡ (if b then calls.produce (record q { future = some x }) (v.boxes t t) else v.boxes t t)
    unfolding post
    posted_box true t x v = rw (==_self t, ==_self t) refl
    posted_box false t x v = refl

    submit_with-Submitted :
        (o : Option (Arena × Option ℕ))
        → (o ≡ none → n_slots ≡ 0)
        → ((r : Arena × Option ℕ) → o ≡ some r → Given live r)
        → Submitted n_slots has_room q live futures w (submit_with has_room q futures w o)
    unfolding submit_with submitted
    submit_with-Submitted none e h = e refl
    submit_with-Submitted (some (b, none)) e h = (h (b, none) refl, refl, refl)
    submit_with-Submitted (some (b, some x)) e h =
        rw (executed-Posted has_room (record q { future = some x }) w pos narrow) (
          h (b, some x) refl,
          rw (==_self x) refl,
          posted_box has_room (target_of (w.balance_index + 1) w) x
              (record w { balance_index = w.balance_index + 1 }),
        )

  -- p7r_submit with carriers, no wrap of the balance index, an arena in which no element is in two
  -- places and an allocator that gives no element in use and none of the arena's own array, which is
  -- thus taken to be still allocated: it is undefined only where the arena has no slots; null changes neither the futures nor the
  -- carriers; a future that is returned was not in use, has no result, no error and no post, and its
  -- request is put to the end of the box of the next target, but only where the message can be
  -- allocated: where it cannot, the box stays as it was and the future is returned all the same.
  pub submit-Submitted :
      (token : ℕ) (heap : Option ℕ) (has_room : Bool) (q : Request) (a : Arena) (live : List ℕ)
      (futures : ℕ → Future) (w : World B)
      → 0 < w.n_carriers
      → w.balance_index + 1 < 2 ^ 32
      → IsSound a live
      → IsNew heap live a
      → Submitted a.n_slots has_room q live futures w (submit token heap has_room q a futures w)
  unfolding submit
  submit-Submitted token heap has_room q a live futures w pos narrow sound new =
      submit_with-Submitted a.n_slots has_room q live futures w pos narrow (get token heap a)
        (get_undefined token heap a) (λ r e. get-IsSound sound token heap new e)
