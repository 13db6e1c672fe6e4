-- ===== src/S1/DlBase.antt =====
-- s1/s1_dlbase.c, one library by its alias: the loaded version, the versions that a reload has
-- replaced, and the count of calls that keeps these open. A wrap is its address. The calls of
-- malloc, dlopen and dlsym enter as what they return, none for NULL; a result none is a NULL that
-- is followed. Each operation runs alone: its mutex and atomic accesses have no other effect.
pub mod Counting
pub mod Invariant
pub mod Release
use servcraft.Prelude.{
  ℕ, zero, suc, ◌+◌, ◌-◌, ◌%◌, ◌^◌, Bool, true, false, ◌&&◌, Option, none, some, List, [], ◌∷◌,
  ◌++◌, ◌==◌, ltb, if◌then◌else◌, update,
}

abbrev pub u64 : ℕ → ℕ
u64 n = n % 2 ^ 64

-- struct s1_dlwrap without its path; base says whether the pointer is set.
pub record DlWrap : Type 0 where
  pub dlhandle : ℕ
  pub invcnt : ℕ
  pub base : Bool

-- struct s1_dlbase without its alias and mutex.
pub record DlBase : Type 0 where
  pub loading : Option ℕ
  pub stable : ℕ
  pub deprecated_set : List ℕ
  pub deprecated_alivecnt : ℕ

-- The wraps by address, the base, and the wraps given to s1_dlwrap_ruin and freed, in order.
pub record Libraries : Type 0 where
  pub wraps : ℕ → DlWrap
  pub base : DlBase
  pub closed : List ℕ

-- struct s1_dlsym.
pub record DlSym : Type 0 where
  pub symbol : Option ℕ
  pub private_ref : ℕ

-- s1_dlwrap_init, given whether the copy of the path was allocated and what dlopen returned.
unfoldable pub dlwrap_init : (path_ok : Bool) (opened : Option ℕ) → Option DlWrap
dlwrap_init false opened = none
dlwrap_init true none = none
dlwrap_init true (some handle) = some (record { dlhandle = handle; invcnt = 0; base = false })

-- s1_dlbase_init, given the address for the wrap.
unfoldable pub dlbase_init :
    (ℕ → DlWrap) → (allocated : Option ℕ) (path_ok : Bool) (opened : Option ℕ) → Option Libraries
dlbase_init wraps none path_ok opened = none
dlbase_init wraps (some w) path_ok opened = elim (dlwrap_init path_ok opened) [
  | none ↦ none
  | some wrap ↦ some (record {
    wraps = update wraps w wrap;
    base = record { loading = none; stable = w; deprecated_set = []; deprecated_alivecnt = 0 };
    closed = [];
  })
]

-- s1_dlbase_ruin: the wraps that it closes, in order.
unfoldable pub dlbase_ruin : DlBase → List ℕ
dlbase_ruin b = b.stable ∷ (elim b.loading [ none ↦ [] | some w ↦ w ∷ [] ]) ++ b.deprecated_set

-- s1_dllib_reload of a base that was found: none where s1_dlwrap_init returned NULL, and else
-- whether the result is 0.
unfoldable pub reload :
    (allocated : Option ℕ) (path_ok : Bool) (opened : Option ℕ)
    → Libraries
    → Option (Bool × Libraries)
reload none path_ok opened l = some (false, l)
reload (some w) path_ok opened l = elim (dlwrap_init path_ok opened) [
  | none ↦ none
  | some wrap ↦
      let old = l.base.stable in
      let wraps₁ = update l.wraps w wrap in
      let wraps₂ = update wraps₁ old (record (wraps₁ old) { base = true }) in
      some (
        true,
        record {
          wraps = wraps₂;
          base = record {
            loading = none;
            stable = w;
            deprecated_set = l.base.deprecated_set ++ old ∷ [];
            deprecated_alivecnt =
                u64 (l.base.deprecated_alivecnt + (if ltb 0 (wraps₂ old).invcnt then 1 else 0));
          };
          closed = l.closed;
        },
      )
]

-- s1_dllib_symbol of a base that was found.
unfoldable pub symbol : (found : Option ℕ) → Libraries → DlSym
symbol found l = record { symbol = found; private_ref = l.base.stable }

-- s1_call_guard.
unfoldable pub call_guard : DlSym → Libraries → DlSym × Libraries
call_guard sym l =
    let w = sym.private_ref in
    (
      sym,
      record l {
        wraps = update l.wraps w (record (l.wraps w) { invcnt = u64 ((l.wraps w).invcnt + 1) });
      },
    )

-- s1_call_unguard: the last call of a version that was replaced may close all those.
unfoldable pub close_deprecated : Libraries → Libraries
close_deprecated l =
    let alive = u64 (l.base.deprecated_alivecnt + 2 ^ 64 - 1) in
    if ltb alive 1
    then record l {
      base = record l.base { deprecated_alivecnt = alive; deprecated_set = [] };
      closed = l.closed ++ l.base.deprecated_set;
    }
    else record l { base = record l.base { deprecated_alivecnt = alive } }

unfoldable pub call_unguard : DlSym → Libraries → DlSym × Libraries
call_unguard sym l =
    let w = sym.private_ref in
    let left = u64 ((l.wraps w).invcnt + 2 ^ 64 - 1) in
    let l₁ = record l { wraps = update l.wraps w (record (l.wraps w) { invcnt = left }) } in
    if ltb left 1 && (l.wraps w).base
    then (record { symbol = none; private_ref = l.base.stable }, close_deprecated l₁)
    else (sym, l₁)

-- s1_dlsym_reload.
unfoldable pub dlsym_reload : (found : Option ℕ) → DlSym → DlSym
dlsym_reload found sym = record sym { symbol = found }
