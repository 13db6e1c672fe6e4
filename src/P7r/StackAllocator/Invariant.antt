-- ===== src/P7r/StackAllocator/Invariant.antt =====
-- What holds of an allocator between calls.
use servcraft.Prelude.{
  [], ◌∷◌, ℕ, ◌+◌, ◌*◌, ◌^◌, ◌≤◌, ◌<◌, ◌≡◌, ◌∙◌, ap, sym, List, arith, All, length, some,
}
use servcraft.P7r.StackPage.{Config, ProviderRef, slave, slave_at, Provider, Metamark}
use servcraft.P7r.StackPage.Layout.{IsStack, IsFresh, provider_init-IsFresh}
use servcraft.P7r.StackPage.Laws.{IsOwned, IsProvider}
use servcraft.P7r.StackAllocator.{Allocator, total, provider_new}
use servcraft.P7r.StackAllocator.Slaves.{FullLast}

-- A slave on the ring is in step, and at least one of its stacks is in use.
abbrev pub IsSlave : ℕ → Provider → Type 0
IsSlave n s = IsProvider n s × (s.size + n ≤ s.capacity)

pub record IsAllocator (a : Allocator) : Type 0 where
  pub positive : 0 < total a
  pub long : IsProvider (total a) a.long_term
  pub short : IsProvider (total a) a.short_term
  pub in_use : All (IsSlave (total a)) a.slaves
  pub counted : a.n_slaves ≡ length a.slaves
  pub few : a.n_slaves < 2 ^ 32
  pub ordered : FullLast a.slaves

-- What p7r_stack_allocator_config_adjust makes of a configuration whose sizes fit.
pub record IsConfig (c : Config) : Type 0 where
  pub stack : 2 ≤ c.n_pages_stack_total
  pub stacks : ℕ
  pub some_stack : 0 < stacks
  pub whole : c.n_pages_slave ≡ stacks * c.n_pages_stack_total
  pub small : c.n_pages_slave < 2 ^ 32
  pub fits : c.n_pages_stack_total * c.n_bytes_page < 2 ^ 32

owned_of_stacks :
    (p : Provider) (self : ProviderRef) (bytes stride zone limit : ℕ) (ms : List Metamark)
    → p.self ≡ self
    → p.n_bytes_page ≡ bytes
    → All (IsStack self bytes stride zone limit) ms
    → All (IsOwned p) ms
owned_of_stacks p self bytes stride zone limit [] e b h = tt
owned_of_stacks p self bytes stride zone limit (m ∷ ms) e b h = (
  (h.0.owner ∙ sym e, h.0.page ∙ sym b),
  owned_of_stacks p self bytes stride zone limit ms e b h.1,
)

-- A fresh provider is in step with its free stacks.
pub IsFresh-IsProvider :
    (self : ProviderRef) (q stack bytes zone : ℕ) (p : Provider)
    → q * stack < 2 ^ 32
    → IsFresh self q stack bytes zone p
    → IsProvider stack p
IsFresh-IsProvider self q stack bytes zone p small f = record {
  whole = omega (arith, f.unused, f.capacity, ap (λ n. stack * n) f.number);
  bound = omega (arith, f.unused);
  small = omega (arith, f.capacity);
  owned = owned_of_stacks p self bytes _ _ _ p.pages f.owner f.page_size f.inside;
  number = q;
  exact = f.capacity;
}

-- A new slave, where both allocations succeed.
pub provider_new-IsFresh :
    (c : Config) (k : IsConfig c) (address zone : ℕ)
    → (p : Provider) × (provider_new c (some address) (some zone) ≡ some (some p))
      × IsFresh (slave_at address) k.stacks c.n_pages_stack_total c.n_bytes_page zone p
unfolding provider_new
provider_new-IsFresh c k address zone =
    let (p, run, f) =
      provider_init-IsFresh (slave_at address) slave k.stacks c.n_pages_stack_total c.n_bytes_page
        zone k.stack (omega (arith, k.whole, k.small)) k.fits in
    (p, rw (provider_new, k.whole, run), f)
