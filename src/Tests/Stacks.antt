-- ===== src/Tests/Stacks.antt =====
-- Stacks of four pages: an allocator after its start, and one that has used up its masters and
-- half of its only slave.
use servcraft.Prelude.{ℕ, ◌≡◌, ◌⊎◌, refl, some, [], ◌∷◌, arith}
use servcraft.P7r.StackPage.{
  Config, master, slave, long_term, short_term, slave_at, Metamark, Provider, ProviderRef, new_mark,
}
use servcraft.P7r.StackPage.Laws.{IsProvider}
use servcraft.P7r.StackAllocator.{Allocator, allocate}
use servcraft.P7r.StackAllocator.Invariant.{IsAllocator, IsConfig}
use servcraft.P7r.StackAllocator.Allocation.{FromMaster, LongTerm, allocate_short_term-Served}
use servcraft.P7r.StackAllocator.Lifetime.{IsRequest}

abbrev request : Config
request = record {
  n_pages_long_term = 4;
  n_pages_short_term = 5;
  n_pages_slave = 8;
  n_pages_stack_total = 4;
  n_pages_stack_user = 0;
  n_bytes_page = 4096;
}

request-IsRequest : IsRequest request
request-IsRequest = record {
  stack = omega arith;
  long = omega arith;
  short = omega arith;
  slaves = omega arith;
  some_slave = omega arith;
  fits = omega arith;
}

abbrev config : Config
config = record {
  n_pages_long_term = 4;
  n_pages_short_term = 4;
  n_pages_slave = 8;
  n_pages_stack_total = 4;
  n_pages_stack_user = 2;
  n_bytes_page = 4096;
}

pub config-IsConfig : IsConfig config
config-IsConfig = record {
  stack = omega arith;
  stacks = 2;
  some_stack = omega arith;
  whole = refl;
  small = omega arith;
  fits = omega arith;
}

-- A provider with no page left.
abbrev used : ProviderRef → ℕ → Provider
used self zone = record {
  self = self;
  kind = master;
  size = 0;
  capacity = 4;
  n_bytes_page = 4096;
  total_size = 0x4000;
  zone = some zone;
  pages = [];
}

used-IsProvider : (self : ProviderRef) (zone : ℕ) → IsProvider 4 (used self zone)
used-IsProvider self zone = record {
  whole = refl;
  bound = omega arith;
  small = omega arith;
  owned = tt;
  number = 1;
  exact = refl;
}

-- The slave at 100 has one stack free and one in use, at 0x80000 and 0x84000.
abbrev half : Provider
half = record {
  self = slave_at 100;
  kind = slave;
  size = 4;
  capacity = 8;
  n_bytes_page = 4096;
  total_size = 0x8000;
  zone = some 0x80000;
  pages = new_mark (slave_at 100) 4096 0x80000 ∷ [];
}

half-IsProvider : IsProvider 4 half
half-IsProvider = record {
  whole = refl;
  bound = omega arith;
  small = omega arith;
  owned = ((refl, refl), tt);
  number = 2;
  exact = refl;
}

abbrev pub busy : Allocator
busy = record {
  properties = config;
  long_term = used long_term 0x10000;
  short_term = used short_term 0x40000;
  n_slaves = 1;
  slaves = half ∷ [];
}

pub busy-IsAllocator : IsAllocator busy
busy-IsAllocator = record {
  positive = omega arith;
  long = used-IsProvider long_term 0x10000;
  short = used-IsProvider short_term 0x40000;
  in_use = ((half-IsProvider, omega arith), tt);
  counted = refl;
  few = omega arith;
  ordered = (λ f. absurd (omega (arith, f)), tt);
}

abbrev last_mark : Metamark
last_mark = new_mark (slave_at 100) 4096 0x84000

allocate_short_term-Served_example :
    FromMaster busy busy-IsAllocator config-IsConfig 200 0x90000
      (omega arith)
      busy.short_term
      (λ p. record busy { short_term = p })
      (allocate 1 (some 200) (some 0x90000) busy)
    ⊎ ((busy.short_term.size ≡ 0)
        × LongTerm busy busy-IsAllocator config-IsConfig 200 0x90000
            (omega arith)
            (allocate 1 (some 200) (some 0x90000) busy))
allocate_short_term-Served_example =
    allocate_short_term-Served busy busy-IsAllocator config-IsConfig 200 0x90000 (omega arith) refl
      refl

abbrev full_up : Allocator
full_up = record {
  properties = config;
  long_term = used long_term 0x10000;
  short_term = used short_term 0x40000;
  n_slaves = 0;
  slaves = [];
}
