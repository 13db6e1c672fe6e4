-- ===== src/P7/Namespace.antt =====
-- p7/p7_namespace.c: coroutines by name, in a hash table whose slots are guarded by locks, each
-- for a run of slots. A name is its bytes before the 0, and a coroutine its address, 0 for NULL.
-- Each operation runs alone; the locks it takes and gives back and its accesses to the table are
-- recorded in order. A result none is a division by zero.
pub mod Laws
use servcraft.Prelude.{
  ℕ, ◌+◌, ◌/◌, ◌%◌, ◌||◌, Bool, true, false, Option, none, some, List, [], ◌∷◌, ◌++◌, ◌==◌,
  if◌then◌else◌,
}
use servcraft.Util.Hashtable
use servcraft.P7r.StackHint.{same_name}

-- struct p7_namebind.
pub record NameBind : Type 0 where
  pub name : List ℕ
  pub coro : ℕ

-- p7_namebind_compare and p7_namebind_hashfunc.
instance abbrev pub name_callbacks : Hashtable.Callbacks NameBind
name_callbacks = record {
  matches = λ lhs rhs. same_name lhs.name rhs.name;
  hashfunc = λ namerec. Hashtable.djb_cstring namerec.name;
}

-- The globals p7_global_namespace, namespace_size and guard->granularity.
pub record Namespace : Type 0 where
  pub table : Hashtable.Hashtable NameBind
  pub namespace_size : ℕ
  pub granularity : ℕ

-- The calls of the lock, by its index, and those of the hash table.
pub data Access : Type 0 where
  rdlock : ℕ → Access
  rdunlock : ℕ → Access
  wrlock : ℕ → Access
  wrunlock : ℕ → Access
  fetches : (name : List ℕ) → Access
  inserts : (name : List ℕ) → (coro : ℕ) → Access
  deletes : (name : List ℕ) → Access

-- The number of locks that p7_namespace_guard_init makes.
unfoldable pub guard_size : (namespace_size granularity : ℕ) → ℕ
guard_size namespace_size granularity =
    namespace_size / granularity + (if namespace_size % granularity == 0 then 0 else 1)

-- The lock index divides by zero.
unfoldable pub no_locks : Namespace → Bool
no_locks ns = (ns.namespace_size == 0) || (ns.granularity == 0)

unfoldable pub lock_index : Namespace → List ℕ → ℕ
lock_index ns name = Hashtable.djb_cstring name % ns.namespace_size / ns.granularity

-- result->coro, or NULL without a result.
unfoldable pub coro_of : Option (Hashtable.Hashkey NameBind) → ℕ
coro_of none = 0
coro_of (some e) = e.key.coro

-- p7_namespace_find: the coroutine, or NULL.
unfoldable pub namespace_find : Namespace → List ℕ → Option (ℕ × Namespace × List Access)
namespace_find ns name =
    if no_locks ns
    then none
    else elim (Hashtable.fetch ns.table (record { name = name; coro = 0 })) [
      | none ↦ none
      | some (found, table) ↦ some (
        coro_of found,
        record ns { table = table },
        rdlock (lock_index ns name) ∷ fetches name ∷ rdunlock (lock_index ns name) ∷ [],
      )
    ]

-- p7_name_register, given whether the record can be allocated: whether it is returned.
unfoldable pub name_register :
    (allocated : Bool) → Namespace → (coro : ℕ) → List ℕ → Option (Bool × Namespace × List Access)
name_register allocated ns coro name = elim (namespace_find ns name) [
  | none ↦ none
  | some (found, ns₁, log) ↦
      if found == 0
      then if allocated
        then elim (Hashtable.insert ns₁.table (record { name = name; coro = coro })) [
          | none ↦ none
          | some table ↦ some (
            true,
            record ns₁ { table = table },
            log
                ++ wrlock (lock_index ns name)
                  ∷ inserts name coro
                  ∷ wrunlock (lock_index ns name)
                  ∷ [],
          )
        ]
        else some (false, ns₁, log)
      else some (false, ns₁, log)
]

-- p7_name_discard of a record that p7_name_register returned; with it the argument of the destructor.
unfoldable pub name_discard :
    Namespace
    → NameBind
    → Option (Option (Option (Hashtable.Hashkey NameBind)) × Namespace × List Access)
name_discard ns namerec =
    let index = lock_index ns namerec.name in
    if no_locks ns then none else elim (Hashtable.delete ns.table namerec) [
      | none ↦ none
      | some (destroyed, table) ↦ some (
        destroyed,
        record ns { table = table },
        wrlock index ∷ deletes namerec.name ∷ wrunlock index ∷ [],
      )
    ]
