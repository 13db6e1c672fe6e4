-- ===== src/P7r/StackPage.antt =====
-- p7r/p7r_stack_allocator.c, the part about one provider: a zone of pages cut into stacks. Only
-- the links of the free stacks are kept, as the sequence of their marks.
-- mmap and the root allocator enter as the addresses that they return, none for a failure.
pub mod Layout
pub mod Laws
use servcraft.Prelude.{
  ℕ, zero, suc, ◌+◌, ◌-◌, ◌*◌, ◌%◌, ◌^◌, Bool, true, false, Option, none, some, List, [], ◌∷◌, ◌++◌,
  ◌==◌, ltb, if◌then◌else◌,
}

abbrev pub u32 : ℕ → ℕ
u32 n = n % 2 ^ 32

abbrev pub sub32 : ℕ → ℕ → ℕ
sub32 a b = (a + 2 ^ 32 - b) % 2 ^ 32

-- struct p7r_stack_allocator_config.
pub record Config : Type 0 where
  pub n_pages_long_term : ℕ
  pub n_pages_short_term : ℕ
  pub n_pages_slave : ℕ
  pub n_pages_stack_total : ℕ
  pub n_pages_stack_user : ℕ
  pub n_bytes_page : ℕ

-- The macro adjust_capacity: the capacity rounded up to whole stacks.
unfoldable pub adjust_capacity : (total capacity : ℕ) → ℕ
adjust_capacity total capacity =
    if capacity % total == 0 then capacity else u32 (sub32 capacity (capacity % total) + total)

-- p7r_stack_allocator_config_adjust.
unfoldable pub config_adjust : Config → Config
unfolding adjust_capacity
config_adjust c = record {
  n_pages_long_term = adjust_capacity c.n_pages_stack_total c.n_pages_long_term;
  n_pages_short_term = adjust_capacity c.n_pages_stack_total c.n_pages_short_term;
  n_pages_slave = adjust_capacity c.n_pages_stack_total c.n_pages_slave;
  n_pages_stack_total = c.n_pages_stack_total;
  n_pages_stack_user = sub32 c.n_pages_stack_total 2;
  n_bytes_page = c.n_bytes_page;
}

-- P7R_STACK_ALLOCATOR_MASTER and P7R_STACK_ALLOCATOR_SLAVE.
pub data ProviderType : Type 0 where
  master : ProviderType
  slave : ProviderType

-- A pointer to a provider: one of the two in the allocator, or a slave at an address.
pub data ProviderRef : Type 0 where
  long_term : ProviderRef
  short_term : ProviderRef
  slave_at : ℕ → ProviderRef

-- struct p7r_stack_metamark, which stands at the first byte of its stack.
pub record Metamark : Type 0 where
  pub address : ℕ
  pub provider : ProviderRef
  pub n_bytes_page : ℕ
  pub red_zone_addr : ℕ
  pub raw_content_addr : ℕ

-- struct p7r_stack_page_provider, with its own address.
pub record Provider : Type 0 where
  pub self : ProviderRef
  pub kind : ProviderType
  pub size : ℕ
  pub capacity : ℕ
  pub n_bytes_page : ℕ
  pub total_size : ℕ
  pub zone : Option ℕ
  pub pages : List Metamark

abbrev pub new_mark : ProviderRef → (n_bytes_page address : ℕ) → Metamark
new_mark self n_bytes_page address = record {
  address = address;
  provider = self;
  n_bytes_page = n_bytes_page;
  red_zone_addr = address + n_bytes_page;
  raw_content_addr = address + u32 (n_bytes_page * 2);
}

-- The loop of p7r_stack_page_provider_init; none when the fuel runs out.
unfoldable pub cut :
    (fuel : ℕ) (self : ProviderRef) (n_pages_capacity n_pages_stack n_bytes_page : ℕ)
    (n_pages_initialized iterator : ℕ) (pages : List Metamark)
    → Option (List Metamark)
cut zero self capacity stack bytes initialized iterator pages = none
cut (suc fuel) self capacity stack bytes initialized iterator pages =
    let rest =
      cut fuel self capacity stack bytes (u32 (initialized + stack))
        (iterator + u32 (stack * bytes)) (pages ++ new_mark self bytes iterator ∷ []) in
    if ltb initialized capacity then rest else some pages

-- p7r_stack_page_provider_init: the provider, and whether the call returned it. The outer none is
-- a loop that does not end within the capacity. Where mmap fails, only the fields written before
-- are in use.
unfoldable pub provider_init :
    ProviderRef
    → ProviderType
    → (n_pages_capacity n_pages_stack n_bytes_page : ℕ) (mapped : Option ℕ)
    → Option (Provider × Bool)
provider_init self kind capacity stack bytes mapped =
    let failed : Provider = record {
      self = self;
      kind = kind;
      size = 0;
      capacity = 0;
      n_bytes_page = 0;
      total_size = capacity * bytes % 2 ^ 64;
      zone = none;
      pages = [];
    } in
    if ltb (capacity * bytes) (2 ^ 64)
    then elim mapped [
      | none ↦ some (failed, false)
      | some zone ↦ elim (cut (suc capacity) self capacity stack bytes 0 zone []) [
        | none ↦ none
        | some pages ↦ some (
          record {
            self = self;
            kind = kind;
            size = capacity;
            capacity = capacity;
            n_bytes_page = bytes;
            total_size = capacity * bytes;
            zone = some zone;
            pages = pages;
          },
          true,
        )
      ]
    ]
    else some (failed, false)

-- The address range that p7r_stack_page_provider_ruin unmaps.
unfoldable pub provider_ruin : Provider → Option (ℕ × ℕ)
provider_ruin p = elim p.zone [ none ↦ none | some zone ↦ some (zone, p.total_size) ]

-- p7r_stack_page_allocate, given the pages of one stack. The outer none is the removal of the list
-- head from an empty list, which corrupts it.
unfoldable pub page_allocate :
    (n_pages_stack_total : ℕ) → Provider → Option (Option Metamark × Provider)
page_allocate total p = if p.size == 0 then some (none, p) else elim p.pages [
  | [] ↦ none
  | m ∷ ms ↦ some (
    some (record m { n_bytes_page = p.n_bytes_page }),
    record p { size = sub32 p.size total; pages = ms },
  )
]

-- The part of p7r_stack_page_free that a master runs, and a slave that lives on.
unfoldable pub page_return : (n_pages_stack_total : ℕ) → Metamark → Provider → Provider
page_return total m p = record p { size = u32 (p.size + total); pages = m ∷ p.pages }
