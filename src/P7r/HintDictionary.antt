-- ===== src/P7r/HintDictionary.antt =====
-- p7r/p7r_stack_hint_dictionary.c: hints by name or by entrance, in a hash table with the callbacks
-- of the hint. Keys are those that the two init functions of a hint make, neither NULL; a hint is
-- its key and its address, and a dummy for a lookup has the address 0.
pub mod Laws
use servcraft.Prelude.{ℕ, Bool, true, false, Option, none, some, List}
use servcraft.Util.Hashtable
use servcraft.P7r.StackHint.{HintKey, entry_hash, entry_matches}

-- What a hint is found by.
pub data HintName : Type 0 where
  by_name : List ℕ → HintName
  by_entrance : ℕ → HintName

-- The field key that p7r_stack_hint_init_by_name and _by_entrance set.
unfoldable pub hint_key : HintName → HintKey
hint_key (by_name name) = record { solid_entrance = none; name = some name }
hint_key (by_entrance entrance) = record { solid_entrance = some entrance; name = none }

-- The part of struct p7r_stack_hint that the table sees.
pub record Hint : Type 0 where
  pub name : HintName
  pub address : ℕ

unfoldable pub hash_of : Option ℕ → ℕ
hash_of none = 0
hash_of (some h) = h

-- p7r_stack_hint_entry_compare and p7r_stack_hint_entry_hash.
instance abbrev pub hint_callbacks : Hashtable.Callbacks Hint
hint_callbacks = record {
  matches = λ lhs rhs. entry_matches (hint_key lhs.name) (hint_key rhs.name);
  hashfunc = λ hint. hash_of (entry_hash (hint_key hint.name));
}

-- struct p7r_stack_hint_dictionary, with the allocator by its address.
pub record HintDictionary : Type 0 where
  pub hashtable : Hashtable.Hashtable Hint
  pub allocator : ℕ

unfoldable pub with_table : ℕ → Option (Hashtable.Hashtable Hint) → Option HintDictionary
with_table allocator none = none
with_table allocator (some table) = some record { hashtable = table; allocator = allocator }

-- p7r_stack_hint_dictionary_init, for the outcomes of the two allocations of the table: the
-- dictionary or NULL.
unfoldable pub init :
    (dic_allocated slots_allocated : Bool) (capacity allocator : ℕ) → Option HintDictionary
init dic_allocated slots_allocated capacity allocator =
    with_table allocator (Hashtable.new dic_allocated slots_allocated true capacity).0

-- p7r_stack_hint_dictionary_ruin: the hints destroyed, and the blocks given back.
unfoldable pub ruin : HintDictionary → List (Hashtable.Hashkey Hint) × List Hashtable.Block
ruin d = Hashtable.destroy d.hashtable

-- p7r_stack_hint_dictionary_put; a table without slots divides by zero, none.
unfoldable pub put : HintDictionary → Hint → Option HintDictionary
put d hint = with_table d.allocator (Hashtable.insert d.hashtable hint)

-- The hint that a key belongs to, or NULL.
unfoldable pub hint_of : Option (Hashtable.Hashkey Hint) → Option Hint
hint_of none = none
hint_of (some e) = some e.key

abbrev pub dummy : HintName → Hint
dummy name = record { name = name; address = 0 }

unfoldable pub fetched :
    HintDictionary
    → Option (Option (Hashtable.Hashkey Hint) × Hashtable.Hashtable Hint)
    → Option (Option Hint × HintDictionary)
fetched d none = none
fetched d (some (found, table)) = some (hint_of found, record d { hashtable = table })

-- p7r_stack_hint_dictionary_get_by_name and _get_by_entrance.
unfoldable pub get : HintDictionary → HintName → Option (Option Hint × HintDictionary)
get d name = fetched d (Hashtable.fetch d.hashtable (dummy name))

unfoldable pub deleted :
    HintDictionary
    → Option (Option (Option (Hashtable.Hashkey Hint)) × Hashtable.Hashtable Hint)
    → Option (Option (Option (Hashtable.Hashkey Hint)) × HintDictionary)
deleted d none = none
deleted d (some (destroyed, table)) = some (destroyed, record d { hashtable = table })

-- p7r_stack_hint_dictionary_delete_by_name and _delete_by_entrance, with the argument of the
-- destructor.
unfoldable pub delete :
    HintDictionary → HintName → Option (Option (Option (Hashtable.Hashkey Hint)) × HintDictionary)
delete d name = deleted d (Hashtable.delete d.hashtable (dummy name))
