-- ===== src/P7r/StackPage/Laws.antt =====
-- One provider as a stack of free stacks: allocation takes the first, a return puts one back.
use mathlib.Core.Path.{subst}
use servcraft.Prelude.{
  ℕ, suc, ◌≢◌, ◌+◌, ◌-◌, ◌*◌, ◌^◌, ◌≤◌, ◌<◌, ◌≡◌, ◌∙◌, ap, refl, sym, none, some, List, [], ◌∷◌,
  arith, All, length, ==_of_ne,
}
use servcraft.P7r.StackPage.{u32, sub32, Metamark, Provider, page_allocate, page_return}

abbrev pub IsOwned : Provider → Metamark → Type 0
IsOwned p m = (m.provider ≡ p.self) × (m.n_bytes_page ≡ p.n_bytes_page)

-- The counter is in step with the free stacks, which are the provider's own.
pub record IsProvider (total : ℕ) (p : Provider) : Type 0 where
  pub whole : p.size ≡ total * length p.pages
  pub bound : p.size ≤ p.capacity
  pub small : p.capacity < 2 ^ 32
  pub owned : All (IsOwned p) p.pages
  pub number : ℕ
  pub exact : p.capacity ≡ number * total

-- What an allocation from a provider with the given free stacks does.
abbrev pub Allocates : (total : ℕ) → Provider → List Metamark → Type 0
Allocates total p [] = page_allocate total p ≡ some (none, p)
Allocates total p (m ∷ ms) =
    (p' : Provider) × (page_allocate total p ≡ some (some m, p'))
    × (p' ≡ record p { size = p.size - total; pages = ms })
    × IsProvider total p'
    × (page_return total m p' ≡ p)

mark_same : (m : Metamark) (n : ℕ) → m.n_bytes_page ≡ n → record m { n_bytes_page = n } ≡ m
mark_same m n e = cc

allocates :
    (total : ℕ) (p : Provider) (ps : List Metamark)
    → p.pages ≡ ps
    → 0 < total
    → IsProvider total p
    → Allocates total p ps
unfolding page_allocate page_return
allocates total p [] e pos v =
    let empty : p.size ≡ 0 = v.whole ∙ ap (λ l. total * length l) e ∙ omega arith in
    rw (page_allocate, empty)
allocates total p (m ∷ ms) e pos v =
    let size : p.size ≡ total * suc (length ms) = v.whole ∙ ap (λ l. total * length l) e in
    let some_left : total ≤ p.size = omega arith in
    let owned = subst (All (IsOwned p)) e v.owned in
    let less : sub32 p.size total ≡ p.size - total = omega (arith, v.bound, v.small) in
    let back : u32 (p.size - total + total) ≡ p.size = omega (arith, v.bound, v.small) in
    (
      record p { size = p.size - total; pages = ms },
      rw (
        page_allocate,
        ==_of_ne p.size 0 (omega arith),
        e,
        mark_same m p.n_bytes_page owned.0.1,
        less,
      ),
      refl,
      record {
        whole = omega arith;
        bound = omega (arith, v.bound);
        small = v.small;
        owned = owned.1;
        number = v.number;
        exact = v.exact;
      },
      λ i. record p { size = back i; pages = sym e i },
    )

-- An allocation takes the first free stack and keeps the provider in step; returning the stack
-- gives the provider back as it was. A provider with no free stack refuses and stays as it is.
pub page_allocate-Allocates :
    (total : ℕ) (p : Provider) → 0 < total → IsProvider total p → Allocates total p p.pages
page_allocate-Allocates total p pos v = allocates total p p.pages refl pos v

-- Returning a stack of the provider keeps it in step, if the stack was part of its capacity.
pub page_return-IsProvider :
    (total : ℕ) (m : Metamark) (p : Provider)
    → IsProvider total p
    → IsOwned p m
    → p.size + total ≤ p.capacity
    → IsProvider total (page_return total m p)
unfolding page_return
page_return-IsProvider total m p v own room = record {
  whole = omega (arith, v.whole, v.small);
  bound = omega (arith, v.small);
  small = v.small;
  owned = (own, v.owned);
  number = v.number;
  exact = v.exact;
}

-- A provider with a free stack hands out a stack of its own.
abbrev pub Taken : (total : ℕ) → Provider → Type 0
Taken total p =
    (m : Metamark) × (p' : Provider) × (page_allocate total p ≡ some (some m, p'))
    × (p'.size + total ≡ p.size)
    × (p'.capacity ≡ p.capacity)
    × (p'.self ≡ p.self)
    × IsProvider total p'
    × (page_return total m p' ≡ p)
    × (m.provider ≡ p.self)

taken :
    (total : ℕ) (p : Provider) (ps : List Metamark)
    → p.pages ≡ ps
    → 0 < total
    → IsProvider total p
    → p.size ≢ 0
    → Taken total p
taken total p [] e pos v ne = absurd (ne (v.whole ∙ ap (λ l. total * length l) e ∙ omega arith))
taken total p (m ∷ ms) e pos v ne =
    let (p', run, shape, v', back) = allocates total p (m ∷ ms) e pos v in
    let size : p.size ≡ total * suc (length ms) = v.whole ∙ ap (λ l. total * length l) e in
    (
      m,
      p',
      run,
      ap (λ q. q.size + total) shape ∙ omega arith,
      ap (λ q. q.capacity) shape,
      ap (λ q. q.self) shape,
      v',
      back,
      (subst (All (IsOwned p)) e v.owned).0.0,
    )

pub page_allocate-Taken :
    (total : ℕ) (p : Provider) → 0 < total → IsProvider total p → p.size ≢ 0 → Taken total p
page_allocate-Taken total p pos v ne = taken total p p.pages refl pos v ne
