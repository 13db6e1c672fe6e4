-- ===== src/Tests/Tables.antt =====
-- A hash table of four slots whose keys are numbers.
use mathlib.Core.Option
use servcraft.Prelude.{ℕ, ◌≡◌, refl, true, none, some, [], ◌∷◌, arith, ◌==◌}
use servcraft.Util.Hashtable.{Callbacks, Hashtable, hit, find, fetch, remove, delete}
use servcraft.Util.Hashtable.Chains.{IsKey}
use servcraft.Util.Hashtable.View.{IsValid, view}
use servcraft.Util.Hashtable.Laws.{Answers, new_key, Removed, fetch-Answers, remove-Removed}
use servcraft.Util.Hashtable.Lifetime.{delete-destroys}

instance abbrev numbers : Callbacks ℕ
numbers = record { matches = λ a b. a == b; hashfunc = λ a. a }

numbers-IsKey : IsKey ℕ
numbers-IsKey = record {
  matches_refl = λ a. ground arith;
  matches_symm = λ a b. ground arith;
  matches_trans = λ a b c p q. ground arith;
  hash_matches = λ a b p. ground arith;
}

-- The keys 8 and 4 in slot 0, and 3 in slot 3.
abbrev table : Hashtable ℕ
table = record {
  cap = 4;
  destroys = true;
  slots =
      record { cluster = new_key 8 ∷ new_key 4 ∷ []; size = 2 }
      ∷ record { cluster = []; size = 0 }
      ∷ record { cluster = []; size = 0 }
      ∷ record { cluster = new_key 3 ∷ []; size = 1 }
      ∷ [];
}

table-IsValid : IsValid table
table-IsValid = record { wide = refl; positive = omega arith }

fetch-Answers_example :
    (dic : Hashtable ℕ) × (fetch table 4 ≡ some (Option.map hit (view table 4), dic))
    × IsValid dic
    × Answers table 4 (Option.map hit (view table 4)) dic
fetch-Answers_example = fetch-Answers numbers-IsKey table table-IsValid 4

remove-Removed_example :
    (dic : Hashtable ℕ) × (remove table 4 ≡ some (view table 4, dic))
    × Removed numbers-IsKey table table-IsValid 4 dic
remove-Removed_example = remove-Removed numbers-IsKey table table-IsValid 4

-- The key 5 is absent: key_destroy is called with NULL.
delete-destroys_example :
    (dic : Hashtable ℕ) × (remove table 5 ≡ some (none, dic))
    × (delete table 5 ≡ some (some none, dic))
unfolding view find
delete-destroys_example = delete-destroys numbers-IsKey table table-IsValid 5
