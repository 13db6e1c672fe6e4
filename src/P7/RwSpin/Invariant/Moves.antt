-- ===== src/P7/RwSpin/Invariant/Moves.antt =====
-- p7/rwspin.c: a shared access of thread `i` keeps each field of the invariant.
use servcraft.Prelude.{ℕ, ◌+◌, ◌-◌, ◌%◌, ◌^◌, ◌<◌, ◌≤◌, ◌≡◌, refl, some, arith, update}
use native.Mathlib.Decide.{dec_lt}
use servcraft.P7.Threads.{one_if, tally, tally-update, tally-le}
use servcraft.P7.RwSpin.{
  RwSpinlock, u32, Pc, idle, rd_entered, rd_counted, rd_store, wr_drain, writing, wr_store, Move,
  rd_request, rd_turn, rd_complete, wr_request, wr_turn, wr_enter, wr_complete, ticket, holds,
  counted,
}

-- What the place of a thread says of the lock: past its turn its ticket is the one being served,
-- the completion it loaded is current, and a writer past the drain has seen no reader left.
abbrev pub IsActive : RwSpinlock → Pc → Type 0
IsActive m (rd_entered t) = m.completion ≡ t
IsActive m (rd_counted t) = m.completion ≡ t
IsActive m (rd_store t c) = (m.completion ≡ t) × (m.completion ≡ c)
IsActive m (wr_drain t) = m.completion ≡ t
IsActive m (writing t) = (m.completion ≡ t) × (m.n_readers ≡ 0)
IsActive m (wr_store t c) = (m.completion ≡ t) × (m.completion ≡ c) × (m.n_readers ≡ 0)
IsActive m _ = Unit

-- Tickets served before `t`.
abbrev pub ahead : RwSpinlock → ℕ → ℕ
ahead m t = (t + 2 ^ 32 - m.completion) % 2 ^ 32

-- A thread with the ticket that is served after `d` more completions.
abbrev pub Holder : RwSpinlock → (ℕ → Pc) → ℕ → Type 0
Holder m pc d = (i : ℕ) × (ticket (pc i) ≡ some (u32 (m.completion + d)))

pub record Inv (n : ℕ) (m : RwSpinlock) (pc : ℕ → Pc) : Type 0 where
  pub few : n < 2 ^ 32
  pub fits : (m.request < 2 ^ 32) × (m.completion < 2 ^ 32)
  pub handed : m.request ≡ u32 (m.completion + tally holds n pc)
  pub range : (i t : ℕ) → ticket (pc i) ≡ some t → (t < 2 ^ 32) × (ahead m t < tally holds n pc)
  pub unique : (i j t : ℕ) → ticket (pc i) ≡ some t → ticket (pc j) ≡ some t → i ≡ j
  pub covered : (d : ℕ) → d < tally holds n pc → Holder m pc d
  pub fresh : (i : ℕ) → IsActive m (pc i)
  pub readers : m.n_readers ≡ tally counted n pc
  pub beyond : (i : ℕ) → n ≤ i → pc i ≡ idle

ruleset counting = (arith, tally-update, tally-le)

-- The premise of a move.
abbrev Premise : {m g : RwSpinlock} {src dest : Pc} → Move m src g dest → Type 0
Premise {m} (rd_turn {t} _) = m.completion ≡ t
Premise {m} (wr_turn {t} _) = m.completion ≡ t
Premise {m} (wr_enter {t} _) = m.n_readers ≡ 0
Premise _ = Unit

premise : {m g : RwSpinlock} {src dest : Pc} (access : Move m src g dest) → Premise access
premise (rd_turn g) = g
premise (wr_turn g) = g
premise (wr_enter g) = g
premise _ = tt

module _ {n : ℕ} {m : RwSpinlock} {pc : ℕ → Pc} (inv : Inv n m pc) (i : ℕ) where
  open inv use {few, fits, handed, range, unique, covered, fresh, readers, beyond}

  -- Thread `i` goes from `src` to `dest`. A match on `Move` needs the variable `src` for `pc i`.
  record Turn (src dest : Pc) : Type 0 where
    stood : pc i ≡ src
    own : IsActive m src
    holders :
        tally holds n (update pc i dest) + one_if (holds src)
        ≡ tally holds n pc + one_if (holds dest)
    counts :
        tally counted n (update pc i dest) + one_if (counted src)
        ≡ tally counted n pc + one_if (counted dest)
    room : (tally holds n (update pc i dest) ≤ n) × (tally counted n (update pc i dest) ≤ n)
    below : i < n
    within : (m.request < 2 ^ 32) × (m.completion < 2 ^ 32) × (n < 2 ^ 32)
    given : m.request ≡ u32 (m.completion + tally holds n pc)

  takes : i < n → (dest : Pc) → Turn (pc i) dest
  takes lt dest = record {
    stood = refl;
    own = fresh i;
    holders = tally-update holds n pc i dest lt;
    counts = tally-update counted n pc i dest lt;
    room = (tally-le holds n (update pc i dest), tally-le counted n (update pc i dest));
    below = lt;
    within = (fits.0, fits.1, few);
    given = handed;
  }

  Move-fits :
      {src dest : Pc} {g : RwSpinlock}
      → Move m src g dest
      → Turn src dest
      → (g.request < 2 ^ 32) × (g.completion < 2 ^ 32)
  Move-fits rd_request turn = ground arith
  Move-fits access turn = ground arith

  Move-handed :
      {src dest : Pc} {g : RwSpinlock}
      → Move m src g dest
      → Turn src dest
      → g.request ≡ u32 (g.completion + tally holds n (update pc i dest))
  Move-handed rd_request turn = ground arith
  Move-handed access turn = ground arith

  Move-readers :
      {src dest : Pc} {g : RwSpinlock}
      → Move m src g dest
      → Turn src dest
      → g.n_readers ≡ tally counted n (update pc i dest)
  Move-readers rd_request turn = ground arith
  Move-readers access turn = ground arith

  Move-range :
      {src dest : Pc} {g : RwSpinlock}
      → Move m src g dest
      → Turn src dest
      → (j t : ℕ) → ticket (update pc i dest j) ≡ some t
      → (t < 2 ^ 32) × (ahead g t < tally holds n (update pc i dest))
  Move-range rd_request turn j t q = ground (arith, range j t, unique i j m.completion)
  Move-range access turn j t q = ground (arith, premise access, range j t, unique i j m.completion)

  Move-unique :
      {src dest : Pc} {g : RwSpinlock}
      → Move m src g dest
      → Turn src dest
      → (a b t : ℕ) → ticket (update pc i dest a) ≡ some t
      → ticket (update pc i dest b) ≡ some t
      → a ≡ b
  Move-unique rd_request turn a b t qa qb = ground (arith, range a t, range b t, unique a b t)
  Move-unique access turn a b t qa qb = ground (arith, range a t, range b t, unique a b t)

  Move-IsActive :
      {src dest : Pc} {g : RwSpinlock}
      → Move m src g dest
      → Turn src dest
      → (j : ℕ) → IsActive g (update pc i dest j)
  Move-IsActive rd_request turn j = ground (arith, fresh j, unique i j m.completion)
  Move-IsActive access turn j = ground (arith, premise access, fresh j, unique i j m.completion)

  Move-beyond :
      {src dest : Pc} {g : RwSpinlock}
      → Move m src g dest
      → Turn src dest
      → (j : ℕ) → n ≤ j
      → update pc i dest j ≡ idle
  Move-beyond rd_request turn j h = ground (arith, beyond j)
  Move-beyond access turn j h = ground (arith, beyond j)

  -- A request adds the last ticket; after a completion the holder of `d + 1` moves up to `d`.
  Move-covered :
      {src dest : Pc} {g : RwSpinlock}
      → Move m src g dest
      → Turn src dest
      → (d : ℕ) → d < tally holds n (update pc i dest)
      → Holder g (update pc i dest) d
  Move-covered rd_request turn d q = elim (dec_lt d (tally holds n pc)) [
    | yes old ↦ let (j, held) = covered d old in (j, ground arith)
    | no new ↦ (i, ground arith)
  ]
  Move-covered wr_request turn d q = elim (dec_lt d (tally holds n pc)) [
    | yes old ↦ let (j, held) = covered d old in (j, ground arith)
    | no new ↦ (i, ground arith)
  ]
  Move-covered rd_complete turn d q =
      let (j, held) = covered (d + 1) (omega arith) in (j, ground arith)
  Move-covered wr_complete turn d q =
      let (j, held) = covered (d + 1) (omega arith) in (j, ground arith)
  Move-covered access turn d q =
      let (j, held) = covered d (omega arith) in (j, ground (arith, premise access))

  ahead-le :
      {src dest : Pc} {g : RwSpinlock}
      → Move m src g dest
      → Turn src dest
      → (j t : ℕ) → ticket (pc j) ≡ some t
      → ticket (update pc i dest j) ≡ some t
      → ahead g t ≤ ahead m t
  ahead-le rd_request turn j t q r = omega arith
  ahead-le access turn j t q r = ground (arith, range j t, unique i j t)

  pub Move-ahead :
      {dest : Pc} {g : RwSpinlock}
      → i < n
      → Move m (pc i) g dest
      → (j t : ℕ) → ticket (pc j) ≡ some t
      → ticket (update pc i dest j) ≡ some t
      → ahead g t ≤ ahead m t
  Move-ahead {dest} lt access = ahead-le access (takes lt dest)

  pub Move-Inv :
      {dest : Pc} {g : RwSpinlock} → i < n → Move m (pc i) g dest → Inv n g (update pc i dest)
  Move-Inv {dest} lt access = record {
    few = few;
    fits = Move-fits access turn;
    handed = Move-handed access turn;
    range = Move-range access turn;
    unique = Move-unique access turn;
    covered = Move-covered access turn;
    fresh = Move-IsActive access turn;
    readers = Move-readers access turn;
    beyond = Move-beyond access turn;
  }
    where
      turn : Turn (pc i) dest
      turn = takes lt dest
