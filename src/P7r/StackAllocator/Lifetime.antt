-- ===== src/P7r/StackAllocator/Lifetime.antt =====
-- From p7r_stack_allocator_init to p7r_stack_allocator_ruin.
use servcraft.Prelude.{ℕ, ◌+◌, ◌*◌, ◌^◌, ◌≤◌, ◌<◌, ◌≡◌, refl, true, [], arith, some}
use servcraft.P7r.StackPage.{
  Config, adjust_capacity, config_adjust, ProviderRef, master, long_term, short_term, Provider,
  provider_init,
}
use servcraft.P7r.StackPage.Layout.{adjust_capacity-multiple, IsFresh, provider_init-IsFresh}
use servcraft.P7r.StackAllocator.{Allocator, init}
use servcraft.P7r.StackAllocator.Invariant.{IsAllocator, IsConfig, IsFresh-IsProvider}

-- A configuration before its adjustment: a stack has room for its mark and its guard page, and
-- rounding up to whole stacks stays within 32 bits.
pub record IsRequest (c : Config) : Type 0 where
  pub stack : 2 ≤ c.n_pages_stack_total
  pub long : c.n_pages_long_term + c.n_pages_stack_total < 2 ^ 32
  pub short : c.n_pages_short_term + c.n_pages_stack_total < 2 ^ 32
  pub slaves : c.n_pages_slave + c.n_pages_stack_total < 2 ^ 32
  pub some_slave : 0 < c.n_pages_slave
  pub fits : c.n_pages_stack_total * c.n_bytes_page < 2 ^ 32

module _ (c : Config) (k : IsRequest c) where
  adjusted-IsConfig : IsConfig (config_adjust c)
  unfolding config_adjust
  adjusted-IsConfig =
      let (q, whole, low, high) =
        adjust_capacity-multiple c.n_pages_stack_total c.n_pages_slave (omega (arith, k.stack))
          k.slaves in
      record {
        stack = k.stack;
        stacks = q;
        some_stack = ground (arith, whole, low, k.some_slave);
        whole = whole;
        small = omega (arith, high, k.slaves);
        fits = k.fits;
      }

  -- A master of the adjusted number of pages.
  master_init :
      (self : ProviderRef) (n zone : ℕ)
      → n + c.n_pages_stack_total < 2 ^ 32
      → (q : ℕ) × (p : Provider) × (provider_init self master
            (adjust_capacity c.n_pages_stack_total n)
            c.n_pages_stack_total
            c.n_bytes_page
            (some zone)
          ≡ some (p, true))
        × (q * c.n_pages_stack_total < 2 ^ 32)
        × IsFresh self q c.n_pages_stack_total c.n_bytes_page zone p
  master_init self n zone small =
      let (q, whole, low, high) =
        adjust_capacity-multiple c.n_pages_stack_total n (omega (arith, k.stack)) small in
      let fits : q * c.n_pages_stack_total < 2 ^ 32 = omega (arith, whole, high, small) in
      let (p, run, f) =
        provider_init-IsFresh self master q c.n_pages_stack_total c.n_bytes_page zone k.stack fits
          k.fits in
      (q, p, rw whole run, fits, f)

  module _ (zone_long zone_short : ℕ) where
    -- Where both zones are mapped and the configuration fits in 32 bits, init returns an allocator in
    -- order, with no slave, with the adjusted configuration, and gives nothing back.
    pub init-IsAllocator :
        (a : Allocator) × (init c (some zone_long) (some zone_short) ≡ some (some a, []))
        × IsAllocator a
        × (a.properties ≡ config_adjust c)
        × IsConfig a.properties
        × (a.long_term.self ≡ long_term)
        × (a.short_term.self ≡ short_term)
        × (a.slaves ≡ [])
    unfolding init config_adjust
    init-IsAllocator =
        let (ql, l, run_l, small_l, fresh_l) =
          master_init long_term c.n_pages_long_term zone_long k.long in
        let (qs, s, run_s, small_s, fresh_s) =
          master_init short_term c.n_pages_short_term zone_short k.short in
        (
          record {
            properties = config_adjust c;
            long_term = l;
            short_term = s;
            n_slaves = 0;
            slaves = [];
          },
          rw (init, run_l, run_s, fresh_l.mapped, fresh_s.mapped),
          record {
            positive = omega (arith, k.stack);
            long = IsFresh-IsProvider long_term ql _ _ zone_long l small_l fresh_l;
            short = IsFresh-IsProvider short_term qs _ _ zone_short s small_s fresh_s;
            in_use = tt;
            counted = refl;
            few = omega arith;
            ordered = tt;
          },
          refl,
          adjusted-IsConfig,
          fresh_l.owner,
          fresh_s.owner,
          refl,
        )
