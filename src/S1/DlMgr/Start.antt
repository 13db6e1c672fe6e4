-- ===== src/S1/DlMgr/Start.antt =====
-- s1/s1_dlbase.c: a manager as s1_dllib_create leaves it, in which no alias names a library.
use mathlib.Core.Path.{subst}
use servcraft.Prelude.{
  ℕ, zero, suc, ◌<◌, ◌≤◌, ◌≡◌, ap, refl, sym, true, false, none, some, List, [], Option-cases, inl,
  inr, some_eq, arith, replicate, length-replicate, get_elem?,
}
use servcraft.S1.HashDic
use servcraft.S1.HashDic.{Entry, Dic, Callbacks, find}
use servcraft.S1.HashDic.Laws.{IsValid, n_entries, view}
use servcraft.S1.HashDic.Single.{n_matching}
use servcraft.S1.DlBase.{Libraries}
use servcraft.S1.DlMgr.{Alias, alias_callbacks, DlMgr, create, created}
use servcraft.S1.DlMgr.Laws.{IsMgr, lookup, value_of}

replicate_empty :
    (n i : ℕ) (c : List (Entry Alias ℕ)) → get_elem? (replicate n []) i ≡ some c → [] ≡ c
replicate_empty zero i c h = cc
replicate_empty (suc n) zero c h = some_eq h
replicate_empty (suc n) (suc i) c h = replicate_empty n i c h

n_entries-replicate : (n : ℕ) → n_entries {K = Alias} {V = ℕ} (replicate n []) ≡ 0
unfolding n_entries
n_entries-replicate zero = refl
n_entries-replicate (suc n) = omega (arith, n_entries-replicate n)

module _ (cap : ℕ) (libraries : ℕ → Libraries) where
  -- What s1_dllib_create returns where its allocations succeed.
  abbrev pub begun : DlMgr
  begun = record {
    dic = record {
      size = 0;
      capacity = cap;
      key_dtor = false;
      val_dtor = true;
      dic = replicate cap [];
    };
    libraries = libraries;
  }

  pub begun-create : create true true true cap libraries ≡ some begun
  unfolding create created HashDic.init
  begun-create = refl

  view-begun : (q : Alias) → view begun.dic q ≡ none
  unfolding view find
  view-begun q = elim (Option-cases (get_elem? begun.dic.dic (HashDic.Laws.home begun.dic q))) [
    | inl e ↦ rw (view, e) refl
    | inr (c, e) ↦ rw (view, e, sym (replicate_empty cap _ c e)) refl
  ]

  pub lookup-begun : (q : Alias) → lookup begun q ≡ none
  lookup-begun q = ap value_of (view-begun q)

  pub begun-IsMgr : 0 < cap → IsMgr begun
  unfolding n_matching
  begun-IsMgr pos = record {
    valid = record {
      wide = length-replicate cap [];
      positive = pos;
      counted = rw (n_entries-replicate cap) refl;
    };
    single = λ i c e k.
        subst (λ (c : List (Entry Alias ℕ)). n_matching k c ≤ 1) (replicate_empty cap i c e)
          (omega arith);
    key_dtor = refl;
    val_dtor = refl;
    filled = λ q h. view-begun q;
    apart = λ q r x h k. cc (rw (view-begun q) at h);
    opened = λ q x h. cc (rw (view-begun q) at h);
  }
