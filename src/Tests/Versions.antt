-- ===== src/Tests/Versions.antt =====
-- A library that is loaded, called, and replaced while the call lasts.
use servcraft.Prelude.{◌≡◌, refl, true, false, none, some, [], ◌∷◌, arith, update}
use servcraft.S1.DlBase.{DlWrap, Libraries, reload, call_unguard}
use servcraft.S1.DlBase.Counting.{alive}
use servcraft.S1.DlBase.Invariant.{IsOpen, reload-IsOpen}
use servcraft.S1.DlBase.Release.{Unguarded, call_unguard-Unguarded}

abbrev no_wrap : DlWrap
no_wrap = record { dlhandle = 0; invcnt = 0; base = false }

-- One version, at 1.
abbrev loaded : Libraries
loaded = record {
  wraps = update (λ _. no_wrap) 1 (record { dlhandle = 700; invcnt = 0; base = false });
  base = record { loading = none; stable = 1; deprecated_set = []; deprecated_alivecnt = 0 };
  closed = [];
}

loaded-IsOpen : IsOpen loaded
unfolding alive
loaded-IsOpen = record {
  distinct = (refl, tt);
  counted = refl;
  few = omega arith;
  marked = λ w h. cc;
  current = refl;
  small = λ w. ground arith;
  called = λ w h. ground arith;
}

reload-IsOpen_example :
    (l : Libraries) × (reload (some 2) true (some 800) loaded ≡ some (true, l))
    × IsOpen l
    × (l.base.stable ≡ 2)
    × (l.base.deprecated_set ≡ 1 ∷ [])
    × (l.closed ≡ [])
    × (reload (some 2) true none loaded ≡ none)
reload-IsOpen_example = reload-IsOpen loaded loaded-IsOpen 2 800 refl (omega arith)

-- The version at 1 is replaced by 2 and has one call left.
abbrev replaced : Libraries
replaced = record {
  wraps = update (λ _. no_wrap) 1 (record { dlhandle = 700; invcnt = 1; base = true });
  base = record { loading = none; stable = 2; deprecated_set = 1 ∷ []; deprecated_alivecnt = 1 };
  closed = [];
}

replaced-IsOpen : IsOpen replaced
unfolding alive
replaced-IsOpen = record {
  distinct = (refl, (refl, tt));
  counted = refl;
  few = omega arith;
  marked = λ w h. ground arith;
  current = refl;
  small = λ w. ground arith;
  called = λ w h. ground arith;
}

call_unguard-Unguarded_example :
    Unguarded replaced replaced-IsOpen 1
      (some 9)
      (omega arith)
      (call_unguard (record { symbol = some 9; private_ref = 1 }) replaced).1
call_unguard-Unguarded_example =
    call_unguard-Unguarded replaced replaced-IsOpen 1 (some 9) (omega arith)
