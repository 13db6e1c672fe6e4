-- ===== src/Tests/Dictionaries.antt =====
-- A dictionary of two slots, from numbers to numbers.
use servcraft.Prelude.{
  ℕ, ◌%◌, ◌^◌, ◌≡◌, refl, true, false, none, some, List, [], ◌∷◌, arith, ◌==◌, if◌then◌else◌,
}
use servcraft.S1.HashDic.{Entry, Callbacks, Dic, success, insert}
use servcraft.S1.HashDic.Laws.{n_entries, IsKey, IsValid, view, or_else, insert-view}

instance abbrev numbers : Callbacks ℕ
numbers = record { hasher = λ a. a % 2 ^ 32; equal_to = λ a b. a == b }

numbers-IsKey : IsKey ℕ
numbers-IsKey = record {
  hasher_equal = λ a b p. ground arith;
  equal_symm = λ a b. ground arith;
  equal_trans = λ a b c p q. ground arith;
}

abbrev entry : ℕ → ℕ → Entry ℕ ℕ
entry k v = record { orig_hashval = k; key = k; value = some v }

abbrev dic : Dic ℕ ℕ
dic = record {
  size = 3;
  capacity = 2;
  key_dtor = false;
  val_dtor = true;
  dic = (entry 2 20 ∷ entry 4 40 ∷ []) ∷ (entry 1 10 ∷ []) ∷ [];
}

dic-IsValid : IsValid dic
unfolding n_entries
dic-IsValid = record { wide = refl; positive = omega arith; counted = refl }

insert-view_example :
    (d : Dic ℕ ℕ) × (insert dic true 6 (some 60) ≡ some (success, d))
    × IsValid d
    × ((q : ℕ) → view d q ≡ or_else (view dic q) (if q == 6 then some (entry 6 60) else none))
    × (insert dic false 6 (some 60) ≡ none)
insert-view_example = insert-view numbers-IsKey dic dic-IsValid 6 (some 60)

abbrev slots : List (List (Entry ℕ ℕ))
slots = (entry 2 20 ∷ []) ∷ []

-- "é" in UTF-8, whose bytes are negative as chars.
abbrev name : List ℕ
name = 195 ∷ 169 ∷ 0 ∷ []
