-- ===== src/P7/Namespace/Laws.antt =====
-- A name that is free is bound by registration and found from then on; a name that is taken stays.
use mathlib.Core.Option
use servcraft.Prelude.{
  mul_mono_left, ℕ, ◌+◌, ◌/◌, ◌%◌, ◌<◌, ◌≡◌, ◌∙◌, ap, refl, sym, Bool, true, false, Option, none,
  some, List, [], ◌∷◌, ◌++◌, arith, ◌==◌, if◌then◌else◌, ==_iff, inl, inr, Bool-cases, leb, ◌≤◌,
}
use servcraft.Util.Hashtable
use servcraft.Util.Hashtable.{Hashkey, hit}
use servcraft.Util.Hashtable.Chains.{IsKey}
use servcraft.Util.Hashtable.View.{IsValid, view}
use servcraft.Util.Hashtable.Laws.{insert-Answers, fetch-Answers}
use servcraft.P7r.StackHint.{same_name}
use servcraft.P7r.StackHint.Keys.{same_name_self, same_name_eq}
use servcraft.P7.Namespace.{
  NameBind, name_callbacks, Namespace, Access, rdlock, rdunlock, wrlock, wrunlock, fetches, inserts,
  no_locks, guard_size, lock_index, coro_of, namespace_find, name_register,
}

same_name_symm : (n m : List ℕ) → same_name n m ≡ same_name m n
unfolding same_name
same_name_symm [] [] = refl
same_name_symm [] (d ∷ ds) = refl
same_name_symm (c ∷ cs) [] = refl
same_name_symm (c ∷ cs) (d ∷ ds) = ground (arith, same_name_symm cs ds)

pub name-IsKey : IsKey NameBind
name-IsKey = record {
  matches_refl = λ a. same_name_self a.name;
  matches_symm = λ a b. same_name_symm a.name b.name;
  matches_trans = λ a b c p q. ap (λ n. same_name n c.name) (same_name_eq a.name b.name p) ∙ q;
  hash_matches = λ a b p. ap Hashtable.djb_cstring (same_name_eq a.name b.name p);
}

div-le : (x n g : ℕ) → 0 < g → x < n → x / g ≤ n / g
div-le x n g pos h = elim (Bool-cases (leb (x / g) (n / g))) [
  | inl le ↦ ground arith
  | inr gt ↦ absurd (omega (arith, mul_mono_left (n / g + 1) (x / g) g (ground arith)))
]

div-lt : (x n g : ℕ) → 0 < g → x < n → n % g ≡ 0 → x / g < n / g
div-lt x n g pos h whole = elim (Bool-cases (leb (n / g) (x / g))) [
  | inl le ↦ absurd (omega (arith, mul_mono_left (n / g) (x / g) g (ground arith)))
  | inr gt ↦ ground arith
]

-- With at least one slot and at least one slot to a lock, every lock index is below the number of
-- locks.
pub lock_index-lt :
    (ns : Namespace) (name : List ℕ)
    → 0 < ns.namespace_size
    → 0 < ns.granularity
    → lock_index ns name < guard_size ns.namespace_size ns.granularity
unfolding lock_index guard_size
lock_index-lt ns name some_slot some_run =
    let n = ns.namespace_size in
    let x = Hashtable.djb_cstring name % n in
    let below : x < n = omega arith in
    elim (Bool-cases (n % ns.granularity == 0)) [
      | inl whole ↦
          rw whole (omega (arith, div-lt x n ns.granularity some_run below ((==_iff _ _).0 whole)))
      | inr part ↦ rw part (omega (arith, div-le x n ns.granularity some_run below))
    ]

abbrev query : List ℕ → NameBind
query name = record { name = name; coro = 0 }

-- The coroutine that a lookup of the name gives, or NULL.
unfoldable pub bound : Namespace → List ℕ → ℕ
bound ns name = coro_of (view ns.table (query name))

coro_of-hit : (o : Option (Hashkey NameBind)) → coro_of (Option.map hit o) ≡ coro_of o
unfolding coro_of
coro_of-hit none = refl
coro_of-hit (some e) = refl

if_map :
    (b : Bool) (o q : Option (Hashkey NameBind))
    → coro_of (if b then o else q) ≡ (if b then coro_of o else coro_of q)
if_map true o q = refl
if_map false o q = refl

-- The lock that guards the slot of a name: one lock to a run of slots.
abbrev pub lock_of : Namespace → List ℕ → ℕ
lock_of ns name = Hashtable.djb_cstring name % ns.namespace_size / ns.granularity

-- What a lookup does, and what a registration does after it.
abbrev pub looked_up : Namespace → List ℕ → List Access
looked_up ns name = rdlock (lock_of ns name) ∷ fetches name ∷ rdunlock (lock_of ns name) ∷ []

abbrev pub put_in : Namespace → List ℕ → ℕ → List Access
put_in ns name coro = wrlock (lock_of ns name) ∷ inserts name coro ∷ wrunlock (lock_of ns name) ∷ []

has_locks : (ns : Namespace) → 0 < ns.namespace_size → 0 < ns.granularity → no_locks ns ≡ false
unfolding no_locks
has_locks ns some_slot some_run = ground arith

module _ (ns : Namespace) (v : IsValid ns.table) (some_slot : 0 < ns.namespace_size)
    (some_run : 0 < ns.granularity) (name : List ℕ) where
  same_bound : (q : List ℕ) → (if same_name q name then bound ns name else bound ns q) ≡ bound ns q
  unfolding bound
  same_bound q = elim (Bool-cases (same_name q name)) [
    | inl m ↦ rw m (ap (bound ns) (sym (same_name_eq q name m)))
    | inr n ↦ rw n
  ]

  -- A lookup in a valid table gives what is bound, changes no binding, and holds the lock of the
  -- name for reading meanwhile.
  pub namespace_find-bound :
      (ns' : Namespace) × (namespace_find ns name ≡ some (bound ns name, ns', looked_up ns name))
      × IsValid ns'.table
      × ((q : List ℕ) → bound ns' q ≡ bound ns q)
      × (ns'.namespace_size ≡ ns.namespace_size)
      × (ns'.granularity ≡ ns.granularity)
  unfolding namespace_find bound lock_index
  namespace_find-bound =
      let (table, run, valid, answers) = fetch-Answers name-IsKey ns.table v (query name) in
      (
        record ns { table = table },
        rw (
          namespace_find,
          has_locks ns some_slot some_run,
          run,
          coro_of-hit (view ns.table (query name)),
        ),
        valid,
        (λ q.
            ap coro_of (answers (query q))
            ∙ if_map (same_name q name) _ _
            ∙ rw (coro_of-hit (view ns.table (query name))) (same_bound q)),
        refl,
        refl,
      )

  -- Registration under a valid table, with room for the record, at least one slot and at least one
  -- slot to a lock. The name is looked up while the lock of its slot, the hash by the number of slots,
  -- divided by the slots to a lock, is held for reading. A free name is then bound to the coroutine,
  -- by an insertion that is made while the same lock is held for writing, and no other binding
  -- changes; a name that is taken is refused, and no binding changes.
  pub name_register-bound :
      (coro : ℕ)
      → (ns' : Namespace) × IsValid ns'.table
        × (if bound ns name == 0
            then (name_register true ns coro name
                ≡ some (true, ns', looked_up ns name ++ put_in ns name coro))
              × ((q : List ℕ) → bound ns' q ≡ (if same_name q name then coro else bound ns q))
            else (name_register true ns coro name ≡ some (false, ns', looked_up ns name))
              × ((q : List ℕ) → bound ns' q ≡ bound ns q))
  unfolding name_register bound coro_of lock_index
  name_register-bound coro =
      let (ns₁, run, valid, same, _, _) = namespace_find-bound in
      elim (Bool-cases (bound ns name == 0)) [
        | inl free ↦
            let (table, put, valid', answers) =
              insert-Answers name-IsKey ns₁.table valid (record { name = name; coro = coro }) in
            (
              record ns₁ { table = table },
              valid',
              rw free (
                rw (name_register, run, free, put),
                λ q.
                    ap coro_of (answers (query q))
                    ∙ if_map (same_name q name) _ _
                    ∙ ap (λ c. if same_name q name then coro else c) (same q),
              ),
            )
        | inr taken ↦ (ns₁, valid, rw taken (rw (name_register, run, taken), same))
      ]
