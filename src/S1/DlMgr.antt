-- ===== src/S1/DlMgr.antt =====
-- s1/s1_dlbase.c, the libraries by their aliases: s1_dllib_create, _ruin, _load, _unload, _reload and
-- _symbol, on the dictionary of S1/HashDic and the bases of S1/DlBase. A base stands for its
-- address, and has the wraps of its own versions. What malloc, dlopen and dlsym return are
-- parameters; a result none is a NULL that is followed. The mutexes have no effect of their own.
pub mod Laws
pub mod Unload
pub mod Start
pub mod Steps
use servcraft.Prelude.{
  ℕ, zero, suc, ◌<◌, ◌≡◌, Bool, true, false, ◌&&◌, Option, none, some, List, [], ◌∷◌, ◌++◌, ◌==◌,
  ltb, if◌then◌else◌, update, length,
}
use servcraft.S1.HashDic
use servcraft.S1.HashDic.{
  Dic, Callbacks, Status, Release, key_dtor_call, val_dtor_call, deallocate, s1_hasher_cstring_djb,
}
use servcraft.S1.DlBase
use servcraft.S1.DlBase.{Libraries, DlSym, dlbase_init, dlbase_ruin}

abbrev pub filename_max : ℕ
filename_max = 4096

-- An alias, by the bytes before its 0; there are fewer than FILENAME_MAX, so that strncpy in
-- s1_dlbase_init copies the 0.
pub record Alias : Type 0 where
  pub bytes : List ℕ
  pub short : length bytes < filename_max

-- strncmp of two strings == 0.
unfoldable pub strncmp_equal : ℕ → List ℕ → List ℕ → Bool
strncmp_equal zero a b = true
strncmp_equal (suc n) [] [] = true
strncmp_equal (suc n) [] (d ∷ b) = false
strncmp_equal (suc n) (c ∷ a) [] = false
strncmp_equal (suc n) (c ∷ a) (d ∷ b) = (c == d) && strncmp_equal n a b

-- alias_compare(a, b) == 0.
abbrev pub alias_compare : Alias → Alias → Bool
alias_compare a b = strncmp_equal filename_max a.bytes b.bytes

instance abbrev pub alias_callbacks : Callbacks Alias
alias_callbacks = record { hasher = λ a. s1_hasher_cstring_djb a.bytes; equal_to = alias_compare }

-- struct s1_dlmgr, with the bases by address.
pub record DlMgr : Type 0 where
  pub dic : Dic Alias ℕ
  pub libraries : ℕ → Libraries

unfoldable pub created : (ℕ → Libraries) → Option (Dic Alias ℕ) → Option DlMgr
created libraries none = none
created libraries (some d) = some record { dic = d; libraries = libraries }

-- s1_dllib_create, for the allocations of s1_dic_init.
unfoldable pub create :
    (dic_ok slots_ok dummies_ok : Bool) (cap : ℕ) → (ℕ → Libraries) → Option DlMgr
create dic_ok slots_ok dummies_ok cap libraries =
    created libraries (HashDic.init dic_ok slots_ok dummies_ok false true cap)

-- s1_dlbase_destroy.
unfoldable pub dlbase_destroy : ℕ → DlMgr → DlMgr
dlbase_destroy b m =
    let l = m.libraries b in
    record m {
      libraries = update m.libraries b (record l { closed = l.closed ++ dlbase_ruin l.base });
    }

-- What a call that takes an entry apart does to the bases.
unfoldable pub release : Release Alias ℕ → DlMgr → Option DlMgr
release (key_dtor_call k) m = some m
release (val_dtor_call none) m = none
release (val_dtor_call (some b)) m = some (dlbase_destroy b m)
release (deallocate e) m = some m

unfoldable pub release_all : List (Release Alias ℕ) → Option DlMgr → Option DlMgr
release_all [] r = r
release_all (c ∷ cs) none = none
release_all (c ∷ cs) (some m) = release_all cs (release c m)

unfoldable pub ruined : DlMgr → Option (List (Release Alias ℕ)) → Option DlMgr
ruined m none = none
ruined m (some cs) = release_all cs (some m)

-- s1_dllib_ruin.
unfoldable pub ruin : DlMgr → Option DlMgr
ruin m = ruined m (HashDic.ruin m.dic)

unfoldable pub inserted :
    ℕ → Libraries → DlMgr → Option (Status × Dic Alias ℕ) → Option (Bool × DlMgr)
inserted b l m none = none
inserted b l m (some (status, d)) =
    some (true, record { dic = d; libraries = update m.libraries b l })

-- The insertion in s1_dllib_load, of what s1_dlbase_init returned: NULL is followed, as an alias.
unfoldable pub load_base :
    (entry_ok : Bool) → Alias → ℕ → DlMgr → Option Libraries → Option (Bool × DlMgr)
load_base entry_ok a b m none = none
load_base entry_ok a b m (some l) = inserted b l m (HashDic.insert m.dic entry_ok a (some b))

-- s1_dllib_load after its lookup.
unfoldable pub load_unless :
    (base wrap : Option ℕ) (path_ok : Bool) (opened : Option ℕ) (entry_ok : Bool)
    → Alias
    → DlMgr
    → Option (Option ℕ)
    → Option (Bool × DlMgr)
load_unless base wrap path_ok opened entry_ok a m none = none
load_unless base wrap path_ok opened entry_ok a m (some (some b)) = some (false, m)
load_unless none wrap path_ok opened entry_ok a m (some none) = some (false, m)
load_unless (some b) wrap path_ok opened entry_ok a m (some none) =
    load_base entry_ok a b m (dlbase_init (m.libraries b).wraps wrap path_ok opened)

-- s1_dllib_load, and whether it returns 0.
unfoldable pub load :
    (base wrap : Option ℕ) (path_ok : Bool) (opened : Option ℕ) (entry_ok : Bool)
    → Alias
    → DlMgr
    → Option (Bool × DlMgr)
load base wrap path_ok opened entry_ok a m =
    load_unless base wrap path_ok opened entry_ok a m (HashDic.fetch m.dic a)

unfoldable pub deleted :
    DlMgr → Option (Status × List (Release Alias ℕ) × Dic Alias ℕ) → Option DlMgr
deleted m none = none
deleted m (some (status, calls, d)) = release_all calls (some (record m { dic = d }))

unfoldable pub unload_if : Alias → DlMgr → Option (Option ℕ) → Option DlMgr
unload_if a m none = none
unload_if a m (some none) = some m
unload_if a m (some (some b)) = deleted m (HashDic.delete m.dic a)

-- s1_dllib_unload. It returns -1 in every case.
unfoldable pub unload : Alias → DlMgr → Option DlMgr
unload a m = unload_if a m (HashDic.fetch m.dic a)

unfoldable pub reloaded : ℕ → DlMgr → Option (Bool × Libraries) → Option (Bool × DlMgr)
reloaded b m none = none
reloaded b m (some (done, l)) = some (done, record m { libraries = update m.libraries b l })

unfoldable pub reload_if :
    (wrap : Option ℕ) (path_ok : Bool) (opened : Option ℕ)
    → DlMgr
    → Option (Option ℕ)
    → Option (Bool × DlMgr)
reload_if wrap path_ok opened m none = none
reload_if wrap path_ok opened m (some none) = some (false, m)
reload_if wrap path_ok opened m (some (some b)) =
    reloaded b m (DlBase.reload wrap path_ok opened (m.libraries b))

-- s1_dllib_reload, and whether it returns 0.
unfoldable pub reload :
    (wrap : Option ℕ) (path_ok : Bool) (opened : Option ℕ) → Alias → DlMgr → Option (Bool × DlMgr)
reload wrap path_ok opened a m = reload_if wrap path_ok opened m (HashDic.fetch m.dic a)

unfoldable pub symbol_of :
    (found : Option ℕ) → DlMgr → Option (Option ℕ) → Option (Option (ℕ × DlSym))
symbol_of found m none = none
symbol_of found m (some none) = some none
symbol_of found m (some (some b)) = some (some (b, DlBase.symbol found (m.libraries b)))

-- s1_dllib_symbol, with the base of the version that it refers to; both fields are NULL for none.
unfoldable pub symbol : (found : Option ℕ) → Alias → DlMgr → Option (Option (ℕ × DlSym))
symbol found a m = symbol_of found m (HashDic.fetch m.dic a)
