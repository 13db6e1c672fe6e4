-- ===== src/P7r/StackPage/Layout.antt =====
-- How a zone is cut: whole stacks, side by side, each with its mark, guard page and content.
use native.Mathlib.Nat.{mul_assoc}
use servcraft.Prelude.{
  mul_mono_left, mul_mono_right, ℕ, zero, suc, ◌+◌, ◌-◌, ◌*◌, ◌/◌, ◌%◌, ◌^◌, ◌≤◌, ◌<◌, ◌≡◌, ◌∙◌, ap,
  refl, true, false, some, List, [], ◌∷◌, ◌++◌, ◌==◌, ltb, arith, append-nil, append_assoc, All,
  length, inl, inr, Bool-cases, ==_iff,
}
use servcraft.P7r.StackPage.{
  u32, adjust_capacity, Metamark, ProviderRef, ProviderType, Provider, new_mark, cut, provider_init,
}

-- Without wrap in 32 bits, the adjusted capacity is a multiple of the stack, not below the
-- capacity and less than one stack above it.
pub adjust_capacity-multiple :
    (total capacity : ℕ)
    → 0 < total
    → capacity + total < 2 ^ 32
    → (q : ℕ) × (adjust_capacity total capacity ≡ q * total)
      × (capacity ≤ adjust_capacity total capacity)
      × (adjust_capacity total capacity < capacity + total)
unfolding adjust_capacity
adjust_capacity-multiple total capacity pos small =
    let split : capacity ≡ (capacity / total) * total + capacity % total = omega arith in
    let below : capacity % total < total = omega arith in
    elim (Bool-cases (capacity % total == 0)) [
      | inl whole ↦
          let e : capacity % total ≡ 0 = (==_iff _ _).0 whole in
          (capacity / total, rw whole (omega arith), rw whole (omega arith), rw whole (omega arith))
      | inr part ↦
          let ne : 0 < capacity % total = ground arith in
          (
            suc (capacity / total),
            rw part (omega arith),
            rw part (omega arith),
            rw part (omega arith),
          )
    ]

-- The marks of r stacks of the given stride, the first at an address.
abbrev pub marks : ProviderRef → (bytes stride r iterator : ℕ) → List Metamark
marks self bytes stride zero iterator = []
marks self bytes stride (suc r) iterator =
    new_mark self bytes iterator ∷ marks self bytes stride r (iterator + stride)

module _ (self : ProviderRef) (capacity stack bytes : ℕ) (pos : 0 < stack)
    (small : capacity < 2 ^ 32) where
  cut-marks :
      (fuel r initialized iterator : ℕ) (pages : List Metamark)
      → capacity ≡ initialized + r * stack
      → r < fuel
      → cut fuel self capacity stack bytes initialized iterator pages
        ≡ some (pages ++ marks self bytes (u32 (stack * bytes)) r iterator)
  unfolding cut
  cut-marks zero r initialized iterator pages e h = absurd (omega arith)
  cut-marks (suc fuel) zero initialized iterator pages e h =
      let done : ltb initialized capacity ≡ false = ground arith in rw (done, append-nil)
  cut-marks (suc fuel) (suc r) initialized iterator pages e h =
      let more : ltb initialized capacity ≡ true = ground arith in
      let next : u32 (initialized + stack) ≡ initialized + stack = omega arith in
      rw (more, next)
        (cut-marks fuel r (initialized + stack) (iterator + u32 (stack * bytes))
            (pages ++ new_mark self bytes iterator ∷ []) (omega arith) (omega arith)
          ∙ rw append_assoc)

-- A stack of the given stride within a zone: its mark, then the guard page, then the content.
pub record IsStack (self : ProviderRef) (bytes stride zone limit : ℕ) (m : Metamark) : Type 0 where
  pub owner : m.provider ≡ self
  pub page : m.n_bytes_page ≡ bytes
  pub guard_page : m.red_zone_addr ≡ m.address + bytes
  pub content : m.raw_content_addr ≡ m.address + 2 * bytes
  pub lower : zone ≤ m.address
  pub upper : m.address + stride ≤ limit

-- Each stack ends before the next one begins.
abbrev pub SideBySide : (stride : ℕ) → List Metamark → Type 0
SideBySide stride [] = Unit
SideBySide stride (m ∷ ms) = All (λ n. m.address + stride ≤ n.address) ms × SideBySide stride ms

module _ (self : ProviderRef) (bytes stride : ℕ) where
  marks-above :
      (r iterator low : ℕ)
      → low ≤ iterator
      → All (λ n. low ≤ n.address) (marks self bytes stride r iterator)
  marks-above zero iterator low h = tt
  marks-above (suc r) iterator low h = (h, marks-above r (iterator + stride) low (omega arith))

  pub marks-SideBySide : (r iterator : ℕ) → SideBySide stride (marks self bytes stride r iterator)
  marks-SideBySide zero iterator = tt
  marks-SideBySide (suc r) iterator =
      (marks-above r (iterator + stride) _ (omega arith), marks-SideBySide r (iterator + stride))

  pub marks-IsStack :
      (r iterator zone limit : ℕ)
      → bytes * 2 < 2 ^ 32
      → zone ≤ iterator
      → iterator + r * stride ≤ limit
      → All (IsStack self bytes stride zone limit) (marks self bytes stride r iterator)
  marks-IsStack zero iterator zone limit b lo hi = tt
  marks-IsStack (suc r) iterator zone limit b lo hi = (
    record {
      owner = refl;
      page = refl;
      guard_page = refl;
      content = omega arith;
      lower = lo;
      upper = omega arith;
    },
    marks-IsStack r (iterator + stride) zone limit b (omega arith) (omega arith),
  )

  pub length-marks : (r iterator : ℕ) → length (marks self bytes stride r iterator) ≡ r
  length-marks zero iterator = refl
  length-marks (suc r) iterator = ap suc (length-marks r (iterator + stride))

mul-lt_u64 : (a b : ℕ) → a < 2 ^ 32 → b < 2 ^ 32 → a * b < 2 ^ 64
mul-lt_u64 a b ha hb = omega (arith, mul_mono_left a (2 ^ 32 - 1) b (omega arith))

-- The pages of a fresh provider.
pub record IsFresh (self : ProviderRef) (q stack bytes zone : ℕ) (p : Provider) : Type 0 where
  pub owner : p.self ≡ self
  pub page_size : p.n_bytes_page ≡ bytes
  pub capacity : p.capacity ≡ q * stack
  pub unused : p.size ≡ p.capacity
  pub mapped : p.zone ≡ some zone
  pub number : length p.pages ≡ q
  pub inside : All (IsStack self bytes (stack * bytes) zone (zone + p.total_size)) p.pages
  pub apart : SideBySide (stack * bytes) p.pages

-- Where the zone is mapped and the capacity is whole stacks of at least two pages, without wrap in
-- 32 bits, the call returns the provider: as many stacks as fit, each with mark, guard page and
-- content, inside the zone and side by side.
pub provider_init-IsFresh :
    (self : ProviderRef) (kind : ProviderType) (q stack bytes zone : ℕ)
    → 2 ≤ stack
    → q * stack < 2 ^ 32
    → stack * bytes < 2 ^ 32
    → (p : Provider) × (provider_init self kind (q * stack) stack bytes (some zone)
        ≡ some (p, true))
      × IsFresh self q stack bytes zone p
unfolding provider_init
provider_init-IsFresh self kind q stack bytes zone two small fits =
    let stride : u32 (stack * bytes) ≡ stack * bytes = omega arith in
    let wide : bytes * 2 ≤ stack * bytes = omega (arith, mul_mono_left 2 stack bytes two) in
    let total = mul-lt_u64 (q * stack) bytes small (omega arith) in
    let room : ltb (q * stack * bytes) (2 ^ 64) ≡ true = ground arith in
    let run =
      cut-marks self (q * stack) stack bytes (omega arith) small (suc (q * stack)) q 0 zone []
        (omega arith) (omega (arith, mul_mono_right 1 stack q (omega arith))) in
    (
      record {
        self = self;
        kind = kind;
        size = q * stack;
        capacity = q * stack;
        n_bytes_page = bytes;
        total_size = q * stack * bytes;
        zone = some zone;
        pages = marks self bytes (stack * bytes) q zone;
      },
      rw (room, run, stride),
      record {
        owner = refl;
        page_size = refl;
        capacity = refl;
        unused = refl;
        mapped = refl;
        number = length-marks self bytes (stack * bytes) q zone;
        inside =
            marks-IsStack self bytes (stack * bytes) q zone zone (zone + q * stack * bytes)
              (omega arith) (omega arith) (omega (arith, mul_assoc q stack bytes));
        apart = marks-SideBySide self bytes (stack * bytes) q zone;
      },
    )
