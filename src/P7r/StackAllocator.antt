-- ===== src/P7r/StackAllocator.antt =====
-- p7r/p7r_stack_allocator.c, the allocator: two master providers, and a ring of slave providers
-- that come and go with the demand. A stack is returned to the provider that its mark points to.
-- A result none stands for undefined behaviour: a NULL or a dangling pointer that is followed.
pub mod Slaves
pub mod Invariant
pub mod Allocation
pub mod Release
pub mod Lifetime
use servcraft.Prelude.{
  ℕ, ◌+◌, ◌-◌, Bool, true, false, ◌&&◌, not, Option, none, some, List, [], ◌∷◌, ◌++◌, ◌==◌,
  if◌then◌else◌,
}
use servcraft.P7r.StackPage.{
  u32, sub32, Config, config_adjust, ProviderType, master, slave, ProviderRef, long_term,
  short_term, slave_at, Metamark, Provider, provider_init, provider_ruin, page_allocate,
  page_return,
}

-- struct p7r_stack_allocator, with struct p7r_stack_page_slaver as its last two fields.
pub record Allocator : Type 0 where
  pub properties : Config
  pub long_term : Provider
  pub short_term : Provider
  pub n_slaves : ℕ
  pub slaves : List Provider

abbrev pub total : Allocator → ℕ
total a = a.properties.n_pages_stack_total

-- Equality of provider pointers.
unfoldable pub same_ref : ProviderRef → ProviderRef → Bool
same_ref long_term long_term = true
same_ref short_term short_term = true
same_ref (slave_at a) (slave_at b) = a == b
same_ref _ _ = false

-- A slave on the ring, by its address: finding it, writing it, list_del.
unfoldable pub find_slave : ProviderRef → List Provider → Option Provider
find_slave r [] = none
find_slave r (s ∷ ss) = if same_ref r s.self then some s else find_slave r ss

unfoldable pub replace : ProviderRef → Provider → List Provider → List Provider
replace r p [] = []
replace r p (s ∷ ss) = if same_ref r s.self then p ∷ ss else s ∷ replace r p ss

unfoldable pub unlink : ProviderRef → List Provider → List Provider
unlink r [] = []
unlink r (s ∷ ss) = if same_ref r s.self then ss else s ∷ unlink r ss

unfoldable pub is_first : ProviderRef → List Provider → Bool
is_first r [] = false
is_first r (s ∷ ss) = same_ref r s.self

-- p7r_slave_free_adjust: the slaves, and whether the slave is to be deleted.
unfoldable pub slave_free_adjust : (total : ℕ) → Provider → List Provider → List Provider × Bool
slave_free_adjust total p ss =
    let ss₁ = if (p.size == 0) && not (is_first p.self ss) then p ∷ unlink p.self ss else ss in
    if u32 (p.size + total) == p.capacity then (unlink p.self ss₁, true) else (ss₁, false)

-- p7r_slave_allocation_adjust: a slave that has run empty goes to the end.
unfoldable pub slave_allocation_adjust : Provider → List Provider → List Provider
slave_allocation_adjust p ss = if p.size == 0 then unlink p.self ss ++ p ∷ [] else ss

-- The loop of p7r_stack_page_allocate_fallback: the first slave with a free stack.
unfoldable pub first_free : List Provider → Option Provider
first_free [] = none
first_free (s ∷ ss) = if s.size == 0 then first_free ss else some s

-- The end of p7r_stack_page_allocate_fallback: a stack from a slave on the ring.
unfoldable pub allocate_from : Allocator → Provider → Option (Option Metamark × Allocator)
unfolding slave_allocation_adjust
allocate_from a s = elim (page_allocate (total a) s) [
  | none ↦ none
  | some (o, s') ↦
      some (o, record a { slaves = slave_allocation_adjust s' (replace s.self s' a.slaves) })
]

-- p7r_stack_page_provider_new: the root allocator gives the address of the provider, mmap its zone.
unfoldable pub provider_new : Config → (allocated mapped : Option ℕ) → Option (Option Provider)
provider_new c none mapped = some none
provider_new c (some address) mapped =
    elim (provider_init (slave_at address) slave c.n_pages_slave c.n_pages_stack_total
      c.n_bytes_page mapped) [
        | none ↦ none
        | some (p, false) ↦ some none
        | some (p, true) ↦ some (some p)
      ]

-- p7r_stack_page_allocate_fallback. The new slave is put on the ring without a test for NULL.
unfoldable pub allocate_fallback :
    (allocated mapped : Option ℕ) → Allocator → Option (Option Metamark × Allocator)
allocate_fallback allocated mapped a = elim (first_free a.slaves) [
  | some s ↦ allocate_from a s
  | none ↦ elim (provider_new a.properties allocated mapped) [
    | none ↦ none
    | some none ↦ none
    | some (some s) ↦
        allocate_from (record a { slaves = s ∷ a.slaves; n_slaves = u32 (a.n_slaves + 1) }) s
  ]
]

-- p7r_stack_page_allocate_long_term and _short_term.
unfoldable pub allocate_long_term :
    (allocated mapped : Option ℕ) → Allocator → Option (Option Metamark × Allocator)
allocate_long_term allocated mapped a = elim (page_allocate (total a) a.long_term) [
  | none ↦ none
  | some (none, p) ↦ allocate_fallback allocated mapped (record a { long_term = p })
  | some (some m, p) ↦ some (some m, record a { long_term = p })
]

unfoldable pub allocate_short_term :
    (allocated mapped : Option ℕ) → Allocator → Option (Option Metamark × Allocator)
allocate_short_term allocated mapped a = elim (page_allocate (total a) a.short_term) [
  | none ↦ none
  | some (none, p) ↦ allocate_long_term allocated mapped (record a { short_term = p })
  | some (some m, p) ↦ some (some m, record a { short_term = p })
]

-- p7r_stack_allocate; the type is P7R_STACK_SOURCE_DEFAULT, 0, or P7R_STACK_SOURCE_SHORT_TERM, 1.
unfoldable pub allocate :
    (type : ℕ) (allocated mapped : Option ℕ) → Allocator → Option (Option Metamark × Allocator)
allocate type allocated mapped a =
    if type == 0
    then allocate_long_term allocated mapped a
    else if type == 1
    then allocate_short_term allocated mapped a
    else some (none, a)

-- The branch of p7r_stack_page_free for a slave; with it the range that munmap is given.
unfoldable pub free_slave : Metamark → Provider → Allocator → Allocator × Option (ℕ × ℕ)
free_slave m p a =
    let p₁ = record p { pages = m ∷ p.pages } in
    let (ss, dying) = slave_free_adjust (total a) p₁ (replace p.self p₁ a.slaves) in
    if dying
    then (record a { slaves = ss; n_slaves = sub32 a.n_slaves 1 }, provider_ruin p₁)
    else (record a { slaves = replace p.self (page_return (total a) m p) ss }, none)

-- p7r_stack_page_free, which p7r_stack_free passes on.
unfoldable pub free : Metamark → Allocator → Option (Allocator × Option (ℕ × ℕ))
free m a = elim m.provider [
  | long_term ↦ some (record a { long_term = page_return (total a) m a.long_term }, none)
  | short_term ↦ some (record a { short_term = page_return (total a) m a.short_term }, none)
  | slave_at s ↦ elim (find_slave (slave_at s) a.slaves) [
    | none ↦ none
    | some p ↦ some (free_slave m p a)
  ]
]

-- p7r_stack_allocator_init, given what mmap returns for the two masters: the allocator, or the
-- ranges given back. The outer none is a loop that does not end.
unfoldable pub init :
    Config
    → (mapped_long mapped_short : Option ℕ) → Option (Option Allocator × List (Option (ℕ × ℕ)))
init config mapped_long mapped_short =
    let c = config_adjust config in
    elim (provider_init long_term master c.n_pages_long_term c.n_pages_stack_total c.n_bytes_page
      mapped_long) [
        | none ↦ none
        | some (l, _) ↦
            elim (provider_init short_term master c.n_pages_short_term c.n_pages_stack_total
              c.n_bytes_page mapped_short) [
                | none ↦ none
                | some (s, _) ↦
                    let a : Allocator = record {
                      properties = c;
                      long_term = l;
                      short_term = s;
                      n_slaves = 0;
                      slaves = [];
                    } in
                    some (elim l.zone [
                      | none ↦ (none, provider_ruin l ∷ provider_ruin s ∷ [])
                      | some _ ↦ elim s.zone [
                        | none ↦ (none, provider_ruin l ∷ provider_ruin s ∷ [])
                        | some _ ↦ (some a, [])
                      ]
                    ])
              ]
      ]

-- p7r_stack_allocator_ruin: the ranges that are unmapped.
ruin_slaves : List Provider → List (Option (ℕ × ℕ))
ruin_slaves [] = []
ruin_slaves (s ∷ ss) = provider_ruin s ∷ ruin_slaves ss

unfoldable pub ruin : Allocator → List (Option (ℕ × ℕ))
unfolding ruin_slaves
ruin a = provider_ruin a.long_term ∷ provider_ruin a.short_term ∷ ruin_slaves a.slaves
