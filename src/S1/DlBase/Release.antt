-- ===== src/S1/DlBase/Release.antt =====
-- The end of a call, s1_call_unguard: what it closes.
use servcraft.Prelude.{
  ℕ, ◌+◌, ◌-◌, ◌^◌, ◌<◌, ◌≡◌, ◌∙◌, refl, sym, Bool, true, false, ◌&&◌, Option, List, [], ◌++◌,
  arith, ◌==◌, ltb, if◌then◌else◌, update, has, append-nil, All, inl, inr, Bool-cases,
}
use servcraft.S1.DlBase.{u64, DlWrap, Libraries, close_deprecated, call_unguard}
use servcraft.S1.DlBase.Counting.{
  busy, alive, alive-update_out, alive-update, alive-le, alive_none, alive_none_at,
}
use servcraft.S1.DlBase.Invariant.{IsOpen}

module _ (l : Libraries) (v : IsOpen l) where
  module _ (w : ℕ) (found : Option ℕ) (calling : 0 < (l.wraps w).invcnt) where
    abbrev ended : DlWrap
    ended = record (l.wraps w) { invcnt = u64 ((l.wraps w).invcnt + 2 ^ 64 - 1) }

    abbrev left : ℕ → DlWrap
    left = update l.wraps w ended

    less : u64 ((l.wraps w).invcnt + 2 ^ 64 - 1) ≡ (l.wraps w).invcnt - 1
    less = omega (arith, v.small w)

    -- A version that is called and was replaced is one of those kept.
    is_kept : (l.wraps w).base ≡ true → has w l.base.deprecated_set ≡ true
    is_kept b = ground (arith, v.called w, v.current)

    is_loaded : (l.wraps w).base ≡ false → has w l.base.deprecated_set ≡ false
    is_loaded b = ground (arith, v.marked w)

    alive-left :
        (l.wraps w).base ≡ true
        → alive left l.base.deprecated_set + 1 ≡ alive l.wraps l.base.deprecated_set + busy ended
    alive-left b =
        ground (arith, alive-update l.wraps w ended l.base.deprecated_set v.distinct.1 (is_kept b))

    alive-same :
        (l.wraps w).base ≡ false
        → alive left l.base.deprecated_set ≡ alive l.wraps l.base.deprecated_set
    alive-same b = alive-update_out l.wraps w ended l.base.deprecated_set (is_loaded b)

    -- The end of a call that leaves the replaced versions as they are.
    left-IsOpen :
        (n : ℕ)
        → n ≡ alive left l.base.deprecated_set
        → IsOpen (record l { wraps = left; base = record l.base { deprecated_alivecnt = n } })
    left-IsOpen n e = record {
      distinct = v.distinct;
      counted = e;
      few = v.few;
      marked = λ x h. ground (arith, v.marked x);
      current = ground (arith, v.current);
      small = λ x. ground (arith, v.small x);
      called = λ x h. ground (arith, v.called x);
    }

    closed-IsOpen :
        (n : ℕ) (closed : List ℕ)
        → n ≡ 0
        → alive left l.base.deprecated_set ≡ 0
        → IsOpen (record {
          wraps = left;
          base = record l.base { deprecated_alivecnt = n; deprecated_set = [] };
          closed = closed;
        })
    unfolding alive
    closed-IsOpen n closed e none_called = record {
      distinct = (refl, tt);
      counted = e;
      few = omega arith;
      marked = λ x h. cc;
      current = ground (arith, v.current);
      small = λ x. ground (arith, v.small x);
      called =
          λ x h. ground (arith, v.called x, alive_none_at left l.base.deprecated_set x none_called);
    }

    -- Where the version is loaded, or is called still, the counter stands as it was.
    kept :
        (ltb (u64 ((l.wraps w).invcnt + 2 ^ 64 - 1)) 1 && (l.wraps w).base) ≡ false
        → l.base.deprecated_alivecnt ≡ alive left l.base.deprecated_set
    kept more = elim (Bool-cases (l.wraps w).base) [
      | inl b ↦ ground (arith, v.counted, alive-left b, less)
      | inr b ↦ ground (arith, v.counted, alive-same b)
    ]

    -- The last call of a replaced version takes one off.
    one_less :
        (ltb (u64 ((l.wraps w).invcnt + 2 ^ 64 - 1)) 1 && (l.wraps w).base) ≡ true
        → (alive left l.base.deprecated_set + 1 ≡ l.base.deprecated_alivecnt)
          × (u64 (l.base.deprecated_alivecnt + 2 ^ 64 - 1) ≡ alive left l.base.deprecated_set)
    one_less last =
        let b : (l.wraps w).base ≡ true = ground arith in
        let e : alive left l.base.deprecated_set + 1 ≡ l.base.deprecated_alivecnt =
          ground (arith, v.counted, alive-left b, less) in
        (e, omega (arith, e, v.counted, v.few, alive-le l.wraps l.base.deprecated_set))

    none_called :
        (ltb (u64 ((l.wraps w).invcnt + 2 ^ 64 - 1)) 1 && (l.wraps w).base) ≡ true
        → ltb (u64 (l.base.deprecated_alivecnt + 2 ^ 64 - 1)) 1 ≡ true
        → alive left l.base.deprecated_set ≡ 0
    none_called last all = ground (arith, one_less last)

    -- The last call of all replaced versions.
    abbrev pub last_call : Bool
    last_call = (l.wraps w).base && ((l.wraps w).invcnt == 1) && (l.base.deprecated_alivecnt == 1)

    abbrev pub Unguarded : Libraries → Type 0
    Unguarded l' =
        (gone : List ℕ) × (gone ≡ (if last_call then l.base.deprecated_set else []))
        × (l'.closed ≡ l.closed ++ gone)
        × All (λ x. (l'.wraps x).invcnt ≡ 0) gone
        × IsOpen l'
        × (l'.base.stable ≡ l.base.stable)

    -- The end of a call closes the replaced versions just when it is the last call of any of them;
    -- none of those closed is being called, the loaded version stays, and the invariant is kept.
    pub call_unguard-Unguarded :
        Unguarded (call_unguard (record { symbol = found; private_ref = w }) l).1
    unfolding call_unguard close_deprecated
    call_unguard-Unguarded =
        elim (Bool-cases (ltb (u64 ((l.wraps w).invcnt + 2 ^ 64 - 1)) 1 && (l.wraps w).base)) [
          | inr more ↦ rw more (
            [],
            ground (arith, less),
            sym (append-nil l.closed),
            tt,
            left-IsOpen l.base.deprecated_alivecnt (kept more),
            refl,
          )
          | inl last ↦ elim (Bool-cases (ltb (u64 (l.base.deprecated_alivecnt + 2 ^ 64 - 1)) 1)) [
            | inl all ↦
                rw (last, all)
                  (
                    l.base.deprecated_set,
                    ground (arith, less, one_less last, none_called last all),
                    refl,
                    alive_none left l.base.deprecated_set (none_called last all),
                    closed-IsOpen _ (l.closed ++ l.base.deprecated_set)
                        ((one_less last).1 ∙ none_called last all) (none_called last all),
                    refl,
                  )
            | inr others ↦
                rw (last, others)
                  (
                    [],
                    ground (arith, less, one_less last),
                    sym (append-nil l.closed),
                    tt,
                    left-IsOpen _ (one_less last).1,
                    refl,
                  )
          ]
        ]
