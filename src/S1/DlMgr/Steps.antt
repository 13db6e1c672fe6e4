-- ===== src/S1/DlMgr/Steps.antt =====
-- s1/s1_dlbase.c: a manager from s1_dllib_create on, through loads, unloads, reloads and calls in any
-- order.
use mathlib.Core.Path.{subst}
use servcraft.Prelude.{
  ◌⊎◌, ℕ, ◌+◌, ◌^◌, ◌<◌, ◌≡◌, ◌≢◌, ◌∙◌, sym, Bool, true, false, Option, none, some, ◌∷◌, ◌==◌,
  update, length, has, Bool-cases, inl, inr, some_eq,
}
use servcraft.S1.DlBase.{Libraries, call_guard, call_unguard}
use servcraft.S1.DlBase.Invariant.{
  IsOpen, call_guard-IsOpen, call_guard_again-IsOpen, reload-IsOpen,
}
use servcraft.S1.DlBase.Release.{call_unguard-Unguarded}
use servcraft.S1.DlMgr.{Alias, DlMgr, load, unload, reload, reload_if, reloaded}
use servcraft.S1.DlMgr.Laws.{IsMgr, lookup, fetch-lookup, load-Loaded}
use servcraft.S1.DlMgr.Unload.{unload-Unloaded, Unloaded}
use servcraft.S1.DlMgr.Start.{begun, begun-IsMgr}

abbrev pub put_library : ℕ → Libraries → DlMgr → DlMgr
put_library b l m = record m { libraries = update m.libraries b l }

-- What happens to a manager: a load of an alias that names no library, with a new base and none of
-- its wraps called; an unload; a reload with a new wrap; a call that starts on the loaded
-- version or on one that is being called; and a call that ends. A call that starts on a replaced version
-- that nobody calls any more is left out: the counter does not know of it.
pub data Step (m : DlMgr) : DlMgr → Type 0 where
  loads :
      {m' : DlMgr} {done : Bool} (a : Alias) (b w handle : ℕ)
      → lookup m a ≡ none
      → ((q : Alias) → lookup m q ≢ some b)
      → ((x : ℕ) → ((m.libraries b).wraps x).invcnt ≡ 0)
      → load (some b) (some w) true (some handle) true a m ≡ some (done, m')
      → Step m m'
  unloads : {m' : DlMgr} (a : Alias) → unload a m ≡ some m' → Step m m'
  reloads :
      {m' : DlMgr} {done : Bool} (a : Alias) (b w handle : ℕ)
      → lookup m a ≡ some b
      → has w ((m.libraries b).base.stable ∷ (m.libraries b).base.deprecated_set) ≡ false
      → length (m.libraries b).base.deprecated_set + 1 < 2 ^ 64
      → reload (some w) true (some handle) a m ≡ some (done, m')
      → Step m m'
  starts :
      (a : Alias) (b w : ℕ) (found : Option ℕ)
      → lookup m a ≡ some b
      → (w ≡ (m.libraries b).base.stable) ⊎ (0 < ((m.libraries b).wraps w).invcnt)
      → ((m.libraries b).wraps w).invcnt + 1 < 2 ^ 64
      → Step m (
          put_library b
            (call_guard (record { symbol = found; private_ref = w }) (m.libraries b)).1
            m)
  ends :
      (a : Alias) (b w : ℕ) (found : Option ℕ)
      → lookup m a ≡ some b
      → 0 < ((m.libraries b).wraps w).invcnt
      → Step m (
          put_library b
            (call_unguard (record { symbol = found; private_ref = w }) (m.libraries b)).1
            m)

put_library-IsMgr :
    (m : DlMgr) → IsMgr m → (b : ℕ) (l : Libraries) → IsOpen l → IsMgr (put_library b l m)
put_library-IsMgr m is b l opened = record {
  valid = is.valid;
  single = is.single;
  key_dtor = is.key_dtor;
  val_dtor = is.val_dtor;
  filled = is.filled;
  apart = is.apart;
  opened = λ q x h. elim (Bool-cases (b == x)) [
    | inl same ↦ rw same opened
    | inr other ↦ rw other (is.opened q x h)
  ];
}

reload-IsMgr :
    (m : DlMgr)
    → IsMgr m
    → {m' : DlMgr} {done : Bool} (a : Alias) (b w handle : ℕ) → lookup m a ≡ some b
    → has w ((m.libraries b).base.stable ∷ (m.libraries b).base.deprecated_set) ≡ false
    → length (m.libraries b).base.deprecated_set + 1 < 2 ^ 64
    → reload (some w) true (some handle) a m ≡ some (done, m')
    → IsMgr m'
unfolding reload reload_if reloaded
reload-IsMgr m is a b w handle named fresh room e =
    let (l, ran, opened, _, _, _, _) =
      reload-IsOpen (m.libraries b) (is.opened a b named) w handle fresh room in
    subst (λ (r : Bool × DlMgr). IsMgr r.1)
      (some_eq (rw (reload, fetch-lookup m is a, named, ran) at e))
      (put_library-IsMgr m is b l opened)

Unloaded-IsMgr :
    (m : DlMgr) (a : Alias) (o : Option ℕ) {m' : DlMgr}
    → IsMgr m
    → Unloaded m a o (unload a m)
    → unload a m ≡ some m'
    → IsMgr m'
Unloaded-IsMgr m a none is u e = subst IsMgr (some_eq (sym u ∙ e)) is
Unloaded-IsMgr m a (some b) is (m'', ran, kept, _, _, _, _) e =
    subst IsMgr (some_eq (sym ran ∙ e)) kept

started :
    (l : Libraries) (v : IsOpen l) (w : ℕ) (found : Option ℕ)
    → (w ≡ l.base.stable) ⊎ (0 < (l.wraps w).invcnt)
    → (l.wraps w).invcnt + 1 < 2 ^ 64
    → IsOpen (call_guard (record { symbol = found; private_ref = w }) l).1
started l v w found (inl e) room =
    subst (λ (x : ℕ). IsOpen (call_guard (record { symbol = found; private_ref = x }) l).1) (sym e)
      (call_guard-IsOpen l v found (subst (λ (x : ℕ). (l.wraps x).invcnt + 1 < 2 ^ 64) e room))
started l v w found (inr calling) room = call_guard_again-IsOpen l v w found calling room

Step-IsMgr : {m m' : DlMgr} → Step m m' → IsMgr m → IsMgr m'
Step-IsMgr {m} (loads a b w handle free fresh idle e) is =
    let (m'', ran, kept, _, _) = load-Loaded m is a b w handle free fresh idle in
    subst (λ (r : Bool × DlMgr). IsMgr r.1) (some_eq (sym ran ∙ e)) kept
Step-IsMgr {m} (unloads a e) is = Unloaded-IsMgr m a (lookup m a) is (unload-Unloaded m is a) e
Step-IsMgr {m} (reloads a b w handle named fresh room e) is =
    reload-IsMgr m is a b w handle named fresh room e
Step-IsMgr {m} (starts a b w found named on room) is =
    put_library-IsMgr m is b _ (started (m.libraries b) (is.opened a b named) w found on room)
Step-IsMgr {m} (ends a b w found named calling) is =
    let (gone, _, _, _, opened, _) =
      call_unguard-Unguarded (m.libraries b) (is.opened a b named) w found calling in
    put_library-IsMgr m is b _ opened

-- The managers that one gets to.
pub data Reach (start : DlMgr) : DlMgr → Type 0 where
  here : Reach start start
  later : {m m' : DlMgr} → Step m m' → Reach start m → Reach start m'

Reach-from : {start m : DlMgr} → IsMgr start → Reach start m → IsMgr m
Reach-from is here = is
Reach-from is (later step r) = Step-IsMgr step (Reach-from is r)

-- From s1_dllib_create on, with at least one slot, through any loads, unloads and reloads, any starts of
-- calls on the loaded version or on one that is being called, and any ends of calls, where a load has a
-- new base, a reload a new wrap, and no counter wraps: no two aliases name one
-- base, each alias has one entry at most, and in every library that is named the counter is the
-- number of replaced versions that are being called, and no version is called but those and the
-- loaded one.
pub begun-Reach :
    (cap : ℕ) (libraries : ℕ → Libraries) {m : DlMgr}
    → 0 < cap
    → Reach (begun cap libraries) m
    → IsMgr m
begun-Reach cap libraries pos r = Reach-from (begun-IsMgr cap libraries pos) r
