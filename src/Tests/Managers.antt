-- ===== src/Tests/Managers.antt =====
-- A manager of two slots, in which a library is loaded and unloaded.
use servcraft.Prelude.{
  inl, ◌≡◌, ◌≢◌, ◌∙◌, refl, sym, Bool, true, false, Option, none, some, [], ◌∷◌, arith,
  if◌then◌else◌, some_eq,
}
use mathlib.Core.Path.{subst}
use servcraft.S1.HashDic.{insert, insert_at, slot_of, fetch, find, s1_hasher_cstring_djb, djb_loop}
use servcraft.S1.HashDic.Laws.{view}
use servcraft.S1.DlBase.{DlWrap, Libraries, dlbase_init, dlwrap_init}
use servcraft.S1.DlMgr.{
  Alias, alias_compare, strncmp_equal, DlMgr, load, load_unless, load_base, inserted, unload,
}
use servcraft.S1.DlMgr.Laws.{IsMgr, lookup, load-Loaded}
use servcraft.S1.DlMgr.Unload.{Unloaded, unload-Unloaded}
use servcraft.S1.DlBase.{call_guard}
use servcraft.S1.DlMgr.Steps.{Reach, here, later, starts, loads, put_library, begun-Reach}
use servcraft.S1.DlMgr.Start.{begun, begun-IsMgr, lookup-begun}

abbrev no_wrap : DlWrap
no_wrap = record { dlhandle = 0; invcnt = 0; base = false }

-- A base that is not in use.
abbrev unused : Libraries
unused = record {
  wraps = λ x. no_wrap;
  base = record { loading = none; stable = 0; deprecated_set = []; deprecated_alivecnt = 0 };
  closed = [];
}

abbrev manager : DlMgr
manager = begun 2 (λ b. unused)

manager-IsMgr : IsMgr manager
manager-IsMgr = begun-IsMgr 2 (λ b. unused) (omega arith)

-- The alias "ab".
abbrev alias : Alias
alias = record { bytes = 97 ∷ 98 ∷ []; short = omega arith }

alias_free : lookup manager alias ≡ none
unfolding view find s1_hasher_cstring_djb djb_loop
alias_free = refl

fresh : (q : Alias) → lookup manager q ≢ some 50
fresh q e = cc (e, lookup-begun 2 (λ b. unused) q)

load-Loaded_example :
    (m : DlMgr) × (load (some 50) (some 60) true (some 700) true alias manager ≡ some (true, m))
    × IsMgr m
    × ((q : Alias) → lookup m q ≡ (if alias_compare q alias then some 50 else lookup manager q))
    × (load (some 50) (some 60) true none true alias manager ≡ none)
load-Loaded_example = load-Loaded manager manager-IsMgr alias 50 60 700 alias_free fresh (λ x. refl)

abbrev or_manager : Option (Bool × DlMgr) → DlMgr
or_manager none = manager
or_manager (some r) = r.1

abbrev busy : DlMgr
busy = or_manager (load (some 50) (some 60) true (some 700) true alias manager)

busy-load : load (some 50) (some 60) true (some 700) true alias manager ≡ some (true, busy)
unfolding load load_unless load_base inserted fetch find slot_of insert insert_at dlbase_init
    dlwrap_init s1_hasher_cstring_djb djb_loop
busy-load = refl

busy-IsMgr : IsMgr busy
busy-IsMgr =
    let (m, ran, is, _, _) =
      load-Loaded manager manager-IsMgr alias 50 60 700 alias_free fresh (λ x. refl) in
    subst (λ (r : Bool × DlMgr). IsMgr r.1) (some_eq (sym ran ∙ busy-load)) is

unload-Unloaded_example : Unloaded busy alias (some 50) (unload alias busy)
unfolding view load load_unless fetch slot_of s1_hasher_cstring_djb djb_loop find load_base
    dlbase_init dlwrap_init inserted insert insert_at strncmp_equal
unload-Unloaded_example = unload-Unloaded busy busy-IsMgr alias

-- The library is loaded, and a call of it starts and ends.
abbrev called : DlMgr
called =
    put_library 50 (call_guard (record { symbol = some 9; private_ref = 60 }) (busy.libraries 50)).1
      busy

busy_named : lookup busy alias ≡ some 50
unfolding view load load_unless fetch slot_of s1_hasher_cstring_djb djb_loop find load_base
    dlbase_init dlwrap_init inserted insert insert_at strncmp_equal
busy_named = refl

called-Reach : Reach manager called
unfolding load load_unless fetch slot_of s1_hasher_cstring_djb djb_loop find load_base dlbase_init
    dlwrap_init inserted insert insert_at
called-Reach =
    later (starts alias 50 60 (some 9) busy_named (inl refl) (omega arith))
      (later (loads alias 50 60 700 alias_free fresh (λ x. refl) busy-load) here)

begun-Reach_example : IsMgr called
begun-Reach_example = begun-Reach 2 (λ b. unused) (omega arith) called-Reach
