-- ===== src/S1/DlBase/Invariant.antt =====
-- No version is closed while it is being called, if calls start on the loaded version.
use servcraft.Prelude.{
  ℕ, ◌+◌, ◌^◌, ◌<◌, ==_iff, ◌≡◌, refl, true, false, Option, none, some, [], ◌∷◌, ◌++◌, arith,
  update, has, has-append, Distinct, append-Distinct, length, length-append,
}
use servcraft.S1.DlBase.{u64, DlWrap, Libraries, dlwrap_init, dlbase_init, reload, call_guard}
use servcraft.S1.DlBase.Counting.{
  busy, alive, alive-update_out, alive-update_same, alive-append, alive-le,
}

-- The loaded version and the replaced ones are different wraps; the counter is the number of
-- replaced versions that are being called, and no other version is called.
pub record IsOpen (l : Libraries) : Type 0 where
  pub distinct : Distinct (l.base.stable ∷ l.base.deprecated_set)
  pub counted : l.base.deprecated_alivecnt ≡ alive l.wraps l.base.deprecated_set
  pub few : length l.base.deprecated_set < 2 ^ 64
  pub marked : (w : ℕ) → has w l.base.deprecated_set ≡ true → (l.wraps w).base ≡ true
  pub current : (l.wraps l.base.stable).base ≡ false
  pub small : (w : ℕ) → (l.wraps w).invcnt < 2 ^ 64
  pub called :
      (w : ℕ) → has w (l.base.stable ∷ l.base.deprecated_set) ≡ false → (l.wraps w).invcnt ≡ 0

-- Where both allocations and dlopen succeed, the base has the new version and no other.
pub dlbase_init-IsOpen :
    (wraps : ℕ → DlWrap) (w handle : ℕ)
    → ((x : ℕ) → (wraps x).invcnt ≡ 0)
    → (l : Libraries) × (dlbase_init wraps (some w) true (some handle) ≡ some l) × IsOpen l
unfolding dlbase_init dlwrap_init alive
dlbase_init-IsOpen wraps w handle idle = (
  _,
  refl,
  record {
    distinct = (refl, tt);
    counted = refl;
    few = omega arith;
    marked = λ x h. cc;
    current = ground arith;
    small = λ x. ground (arith, idle x);
    called = λ x h. ground (arith, idle x);
  },
)

module _ (l : Libraries) (v : IsOpen l) where
  -- A call that starts on the loaded version keeps the invariant, short of 2 ^ 64 calls.
  pub call_guard-IsOpen :
      (found : Option ℕ)
      → (l.wraps l.base.stable).invcnt + 1 < 2 ^ 64
      → IsOpen (call_guard (record { symbol = found; private_ref = l.base.stable }) l).1
  unfolding call_guard
  call_guard-IsOpen found room = record {
    distinct = v.distinct;
    counted = ground (
      arith,
      v.counted,
      v.distinct.0,
      alive-update_out l.wraps l.base.stable
          (record (l.wraps l.base.stable) { invcnt = u64 ((l.wraps l.base.stable).invcnt + 1) })
          l.base.deprecated_set,
    );
    few = v.few;
    marked = λ w h. ground (arith, v.marked w, v.distinct.0);
    current = ground (arith, v.current);
    small = λ w. ground (arith, v.small w);
    called = λ w h. ground (arith, v.called w);
  }

  -- So does a call that starts on a version, replaced or not, which is still being called.
  pub call_guard_again-IsOpen :
      (w : ℕ) (found : Option ℕ)
      → 0 < (l.wraps w).invcnt
      → (l.wraps w).invcnt + 1 < 2 ^ 64
      → IsOpen (call_guard (record { symbol = found; private_ref = w }) l).1
  unfolding call_guard
  call_guard_again-IsOpen w found calling room =
      let more = record (l.wraps w) { invcnt = u64 ((l.wraps w).invcnt + 1) } in
      let same : busy more ≡ busy (l.wraps w) = ground (arith, calling, room) in
      record {
        distinct = v.distinct;
        counted =
            ground (arith, v.counted, alive-update_same l.wraps w more l.base.deprecated_set same);
        few = v.few;
        marked = λ x h. ground (arith, v.marked x, ==_iff w x);
        current = ground (arith, v.current, ==_iff w l.base.stable);
        small = λ x. ground (arith, v.small x, ==_iff w x);
        called = λ x h. ground (arith, v.called x h, calling, ==_iff w x);
      }

  module _ (w handle : ℕ) (fresh : has w (l.base.stable ∷ l.base.deprecated_set) ≡ false)
      (room : length l.base.deprecated_set + 1 < 2 ^ 64) where
    abbrev opened : DlWrap
    opened = record { dlhandle = handle; invcnt = 0; base = false }

    abbrev old : ℕ
    old = l.base.stable

    abbrev replaced : ℕ → DlWrap
    replaced =
        update (update l.wraps w opened) old (record (update l.wraps w opened old) { base = true })

    alive-replaced :
        alive replaced (l.base.deprecated_set ++ old ∷ [])
        ≡ alive l.wraps l.base.deprecated_set + busy (l.wraps old)
    alive-replaced = ground (
      arith,
      alive-append replaced l.base.deprecated_set old,
      alive-update_out l.wraps w opened l.base.deprecated_set,
      alive-update_out (update l.wraps w opened) old
          (record (update l.wraps w opened old) { base = true }) l.base.deprecated_set,
      v.distinct.0,
    )

    old_last : Distinct (l.base.deprecated_set ++ old ∷ [])
    old_last =
        append-Distinct l.base.deprecated_set (old ∷ []) v.distinct.1 (refl, tt)
          (λ a m. ground (arith, v.distinct.0))

    -- reload with a new wrap puts the new version in place, keeps the old one open, closes nothing
    -- and keeps the invariant. Where dlopen fails, NULL is followed.
    pub reload-IsOpen :
        (l' : Libraries) × (reload (some w) true (some handle) l ≡ some (true, l'))
        × IsOpen l'
        × (l'.base.stable ≡ w)
        × (l'.base.deprecated_set ≡ l.base.deprecated_set ++ l.base.stable ∷ [])
        × (l'.closed ≡ l.closed)
        × (reload (some w) true none l ≡ none)
    unfolding reload dlwrap_init
    reload-IsOpen = (
      _,
      refl,
      record {
        distinct = (ground (arith, has-append w l.base.deprecated_set (old ∷ [])), old_last);
        counted = ground (arith, alive-replaced, v.counted, alive-le l.wraps l.base.deprecated_set);
        few = omega (arith, length-append l.base.deprecated_set (old ∷ []));
        marked = λ x h. ground (arith, v.marked x, has-append x l.base.deprecated_set (old ∷ []));
        current = ground arith;
        small = λ x. ground (arith, v.small x);
        called = λ x h. ground (arith, v.called x, has-append x l.base.deprecated_set (old ∷ []));
      },
      refl,
      refl,
      refl,
      refl,
    )
