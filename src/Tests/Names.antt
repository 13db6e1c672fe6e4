-- ===== src/Tests/Names.antt =====
-- A namespace of four slots with two locks, in which the name "a" is bound to 700.
use servcraft.Prelude.{
  ℕ, ◌≡◌, refl, true, false, some, List, [], ◌∷◌, ◌++◌, arith, ◌==◌, if◌then◌else◌,
}
use servcraft.Util.Hashtable
use servcraft.Util.Hashtable.View.{IsValid}
use servcraft.P7r.StackHint.{same_name}
use servcraft.P7.Namespace.{NameBind, Namespace, name_register}
use servcraft.P7.Namespace.Laws.{bound, looked_up, put_in, name_register-bound}

abbrev empty : Hashtable.Hashslot NameBind
empty = record { cluster = []; size = 0 }

-- The hash of "a" is 177670, in slot 2.
abbrev names : Namespace
names = record {
  table = record {
    cap = 4;
    destroys = true;
    slots =
        empty
        ∷ empty
        ∷ record {
          cluster = record { key = record { name = 97 ∷ []; coro = 700 }; n_hits = 0 } ∷ [];
          size = 1;
        }
        ∷ empty
        ∷ [];
  };
  namespace_size = 4;
  granularity = 2;
}

names-IsValid : IsValid names.table
names-IsValid = record { wide = refl; positive = omega arith }

name_register-bound_example :
    (ns : Namespace) × IsValid ns.table
    × (if bound names (98 ∷ []) == 0
        then (name_register true names 800 (98 ∷ [])
            ≡ some (true, ns, looked_up names (98 ∷ []) ++ put_in names (98 ∷ []) 800))
          × ((q : List ℕ) → bound ns q ≡ (if same_name q (98 ∷ []) then 800 else bound names q))
        else (name_register true names 800 (98 ∷ []) ≡ some (false, ns, looked_up names (98 ∷ [])))
          × ((q : List ℕ) → bound ns q ≡ bound names q))
name_register-bound_example =
    name_register-bound names names-IsValid (omega arith) (omega arith) (98 ∷ []) 800
