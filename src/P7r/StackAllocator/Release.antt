-- ===== src/P7r/StackAllocator/Release.antt =====
-- Returning a stack to a slave: the slave moves up, stays, or goes away with its last stack.
use servcraft.Prelude.{
  ℕ, ◌+◌, ◌<◌, ◌≡◌, ◌⊎◌, true, ◌&&◌, not, List, ◌∷◌, All, length, Option, some, none, ◌==◌,
  if◌then◌else◌,
}
use servcraft.P7r.StackPage.{Metamark, Provider, slave_at, page_return, provider_ruin}
use servcraft.P7r.StackAllocator.{Allocator, total, same_ref, find_slave, replace, unlink, is_first}
use servcraft.P7r.StackAllocator.Slaves.{same_ref_self, FullLast}
use servcraft.P7r.StackAllocator.Invariant.{IsSlave, IsAllocator}

-- The slave with the stack back on its list, before its counter is raised.
abbrev pushed : Metamark → Provider → Provider
pushed m p = record p { pages = m ∷ p.pages }

module _ (n : ℕ) (m : Metamark) (p : Provider) (ss : List Provider)
    (found : find_slave p.self ss ≡ some p) where
  -- The ring after the slave has moved up, if it was used up and not first.
  abbrev ring : List Provider
  ring =
      if (p.size == 0) && not (is_first p.self (replace p.self (pushed m p) ss))
      then pushed m p ∷ unlink p.self (replace p.self (pushed m p) ss)
      else replace p.self (pushed m p) ss

  self : same_ref p.self p.self ≡ true
  self = same_ref_self p.self

  abbrev back : Provider
  back = page_return n m p

  -- The ring once the counter is raised.
  abbrev final : List Provider
  final = replace p.self back ring

module _ (a : Allocator) (v : IsAllocator a) (m : Metamark) (p : Provider) (address : ℕ)
    (points : m.provider ≡ slave_at address) (self_at : p.self ≡ slave_at address)
    (page : m.n_bytes_page ≡ p.n_bytes_page) (found : find_slave p.self a.slaves ≡ some p) where
  -- The ring after a slave that lives on got its stack back.
  abbrev ring_after : List Provider
  ring_after = final (total a) m p a.slaves found

  abbrev KeepsRing : List Provider → Type 0
  KeepsRing ss = All (IsSlave (total a)) ss × FullLast ss × (length ss ≡ length a.slaves)

  -- What a return does to a slave whose last stack in use it was, and to any other.
  abbrev pub Released : Option (Allocator × Option (ℕ × ℕ)) → Type 0
  Released r =
      (a' : Allocator) × (gone : Option (ℕ × ℕ)) × (r ≡ some (a', gone))
      × IsAllocator a'
      × (((p.size + total a ≡ p.capacity)
            × (gone ≡ provider_ruin p)
            × (a'.slaves ≡ unlink p.self a.slaves)
            × (a'.n_slaves + 1 ≡ a.n_slaves))
          ⊎ ((p.size + total a < p.capacity) × (gone ≡ none) × (a'.n_slaves ≡ a.n_slaves)))
