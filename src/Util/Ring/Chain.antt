-- ===== src/Util/Ring/Chain.antt =====
-- What a ring of links stands for: the sequence of its nodes.
use servcraft.Prelude.{
  ℕ, ◌≡◌, ◌≢◌, true, false, List, [], ◌∷◌, ◌++◌, arith, ◌==◌, if◌then◌else◌, has, Distinct,
}
use servcraft.Util.Ring.{Links, null}

-- From p the next fields lead through xs to q, and the prev fields back.
abbrev pub Chain : Links → ℕ → List ℕ → ℕ → Type 0
Chain l p [] q = (l.next p ≡ q) × (l.prev q ≡ p)
Chain l p (x ∷ xs) q = (l.next p ≡ x) × (l.prev x ≡ p) × Chain l x xs q

-- The head h with the nodes xs: all distinct, none NULL.
pub record IsRing (l : Links) (h : ℕ) (xs : List ℕ) : Type 0 where
  pub chain : Chain l h xs h
  pub distinct : Distinct (h ∷ xs)
  pub valid : has null (h ∷ xs) ≡ false

-- A chain depends on the next fields of p and xs, and the prev fields of xs and q.
pub Chain_frame :
    (l g : Links) (p : ℕ) (xs : List ℕ) (q : ℕ)
    → ((a : ℕ) → has a (p ∷ xs) ≡ true → g.next a ≡ l.next a)
    → ((a : ℕ) → has a (q ∷ xs) ≡ true → g.prev a ≡ l.prev a)
    → Chain l p xs q
    → Chain g p xs q
Chain_frame l g p [] q hn hp c = (ground (arith, hn p), ground (arith, hp q))
Chain_frame l g p (x ∷ xs) q hn hp c = (
  ground (arith, hn p),
  ground (arith, hp x),
  Chain_frame l g x xs q (λ a h. hn a (ground arith)) (λ a h. hp a (ground arith)) c.2,
)

pub Chain-append :
    (l : Links) (p : ℕ) (xs : List ℕ) (e : ℕ) (ys : List ℕ) (q : ℕ)
    → Chain l p xs e
    → Chain l e ys q
    → Chain l p (xs ++ e ∷ ys) q
Chain-append l p [] e ys q c d = (c.0, c.1, d)
Chain-append l p (x ∷ xs) e ys q c d = (c.0, c.1, Chain-append l x xs e ys q c.2 d)

pub Chain_split :
    (l : Links) (p : ℕ) (xs : List ℕ) (e : ℕ) (ys : List ℕ) (q : ℕ)
    → Chain l p (xs ++ e ∷ ys) q
    → Chain l p xs e × Chain l e ys q
Chain_split l p [] e ys q c = ((c.0, c.1), c.2)
Chain_split l p (x ∷ xs) e ys q c = let r = Chain_split l x xs e ys q c.2 in ((c.0, c.1, r.0), r.1)

-- The last of p and xs, and the first of xs and q.
abbrev pub last : ℕ → List ℕ → ℕ
last p [] = p
last p (x ∷ xs) = last x xs

abbrev pub first : List ℕ → ℕ → ℕ
first [] q = q
first (x ∷ xs) q = x

pub has-last : (p : ℕ) (xs : List ℕ) → has (last p xs) (p ∷ xs) ≡ true
has-last p [] = ground arith
has-last p (x ∷ xs) = ground (arith, has-last x xs)

pub has-first : (xs : List ℕ) (q : ℕ) → has (first xs q) (q ∷ xs) ≡ true
has-first [] q = ground arith
has-first (x ∷ xs) q = ground arith

pub Chain-first : (l : Links) (p : ℕ) (xs : List ℕ) (q : ℕ) → Chain l p xs q → l.next p ≡ first xs q
Chain-first l p [] q c = c.0
Chain-first l p (x ∷ xs) q c = c.0

pub Chain-last : (l : Links) (p : ℕ) (xs : List ℕ) (q : ℕ) → Chain l p xs q → l.prev q ≡ last p xs
Chain-last l p [] q c = c.1
Chain-last l p (x ∷ xs) q c = Chain-last l x xs q c.2

-- A store that differs from l in leading from the last node to r, not to q, holds the chain to r.
pub Chain_retarget :
    (l g : Links) (p : ℕ) (xs : List ℕ) (q r : ℕ)
    → Chain l p xs q
    → Distinct (p ∷ xs)
    → ((a : ℕ) → has a (p ∷ xs) ≡ true → g.next a ≡ (if a == last p xs then r else l.next a))
    → ((a : ℕ) → has a xs ≡ true → g.prev a ≡ l.prev a)
    → g.prev r ≡ last p xs
    → Chain g p xs r
Chain_retarget l g p [] q r c d hn hp e = (ground (arith, hn p), e)
Chain_retarget l g p (x ∷ xs) q r c d hn hp e = (
  ground (arith, hn p, has-last x xs),
  ground (arith, hp x),
  Chain_retarget l g x xs q r c.2 d.1 (λ a h. hn a (ground arith)) (λ a h. hp a (ground arith)) e,
)

-- A store that differs from l in leading from p', not from p, to the first node.
pub Chain_reroot :
    (l g : Links) (p p' : ℕ) (xs : List ℕ) (q : ℕ)
    → Chain l p xs q
    → g.next p' ≡ first xs q
    → g.prev (first xs q) ≡ p'
    → ((a : ℕ) → has a xs ≡ true → g.next a ≡ l.next a)
    → ((a : ℕ) → has a (q ∷ xs) ≡ true → a ≢ first xs q → g.prev a ≡ l.prev a)
    → Distinct (q ∷ xs)
    → Chain g p' xs q
Chain_reroot l g p p' [] q c en ep hn hp d = (en, ep)
Chain_reroot l g p p' (x ∷ xs) q c en ep hn hp d =
    (en, ep, Chain_frame l g x xs q hn (λ a h. hp a (ground arith) (ground arith)) c.2)
