-- ===== src/S1/DlMgr/Unload.antt =====
-- s1/s1_dlbase.c: what s1_dllib_unload closes, and what it leaves.
use mathlib.Core.Path.{subst}
use servcraft.Prelude.{
  ℕ, List, [], ◌∷◌, ◌≡◌, ◌≢◌, ◌∙◌, ap, refl, sym, true, false, Option, none, some, ◌++◌, ==_self,
  ==_of_ne, Option-cases, Bool-cases, inl, inr,
}
use servcraft.S1.HashDic
use servcraft.S1.HashDic.{Entry, Dic, success, drop_item}
use servcraft.S1.HashDic.Laws.{IsValid, view, delete-Deleted, Deleted}
use servcraft.S1.HashDic.Single.{delete-IsSingle, delete-dtors, view-same}
use servcraft.S1.DlBase.{DlBase, dlbase_ruin}
use servcraft.S1.DlMgr.{
  Alias, alias_compare, alias_callbacks, DlMgr, unload, unload_if, deleted, release, release_all,
  dlbase_destroy,
}
use servcraft.S1.DlMgr.Laws.{IsMgr, lookup, value_of, alias-IsKey, fetch-lookup, alias_compare_self}

some_entry :
    (o : Option (Entry Alias ℕ)) {b : ℕ}
    → value_of o ≡ some b
    → (e : Entry Alias ℕ) × (o ≡ some e) × (e.value ≡ some b)
some_entry none h = cc
some_entry (some e) h = (e, refl, h)

release-drop :
    (e : Entry Alias ℕ) (b : ℕ) (m : DlMgr)
    → e.value ≡ some b
    → release_all (drop_item false true e) (some m) ≡ some (dlbase_destroy b m)
unfolding release_all release drop_item
release-drop e b m h = rw h refl

abbrev pub loading_list : Option ℕ → List ℕ
loading_list none = []
loading_list (some x) = x ∷ []

-- The version in place, one that is being loaded, and the replaced ones.
abbrev pub all_versions : DlBase → List ℕ
all_versions b = b.stable ∷ loading_list b.loading ++ b.deprecated_set

all_ruined : (b : DlBase) → dlbase_ruin b ≡ all_versions b
unfolding dlbase_ruin
all_ruined b = elim (Option-cases b.loading) [
  | inl e ↦ rw (dlbase_ruin, e) refl
  | inr (x, e) ↦ rw (dlbase_ruin, e) refl
]

-- What s1_dllib_unload leaves, by the base that the alias names.
module _ (m : DlMgr) (a : Alias) where
  abbrev pub Unloaded : Option ℕ → Option DlMgr → Type 0
  Unloaded none r = r ≡ some m
  Unloaded (some b) r =
      (m' : DlMgr) × (r ≡ some m')
      × IsMgr m'
      × (lookup m' a ≡ none)
      × ((q : Alias) → alias_compare q a ≡ false → lookup m' q ≡ lookup m q)
      × ((m'.libraries b).closed ≡ (m.libraries b).closed ++ all_versions (m.libraries b).base)
      × ((x : ℕ) → x ≢ b → m'.libraries x ≡ m.libraries x)

module _ (m : DlMgr) (is : IsMgr m) (a : Alias) where
  module _ (b : ℕ) (named : lookup m a ≡ some b) (d : Dic Alias ℕ) (valid : IsValid d)
      (others : (q : Alias) → alias_compare q a ≡ false → view d q ≡ view m.dic q)
      (e : Entry Alias ℕ)
      (ran : HashDic.delete m.dic a
        ≡ some (success, drop_item m.dic.key_dtor m.dic.val_dtor e, d)) where
    abbrev left : DlMgr
    left = dlbase_destroy b (record m { dic = d })

    gone : (q : Alias) → alias_compare q a ≡ true → view d q ≡ none
    gone q t =
        let (single, none_left) = delete-IsSingle alias-IsKey m.dic is.single a ran in
        view-same alias-IsKey d single a q t ∙ none_left

    named_before :
        (q : Alias) (x : ℕ)
        → value_of (view d q) ≡ some x
        → (alias_compare q a ≡ false) × (lookup m q ≡ some x)
    named_before q x h = elim (Bool-cases (alias_compare q a)) [
      | inl t ↦ cc (rw (gone q t) at h)
      | inr f ↦ (f, rw (others q f) at h)
    ]

    left-IsMgr : IsMgr left
    unfolding dlbase_destroy
    left-IsMgr =
        let dtors = delete-dtors alias-IsKey m.dic is.single a ran in
        record {
          valid = valid;
          single = (delete-IsSingle alias-IsKey m.dic is.single a ran).0;
          key_dtor = dtors.0 ∙ is.key_dtor;
          val_dtor = dtors.1 ∙ is.val_dtor;
          filled = λ q h. elim (Bool-cases (alias_compare q a)) [
            | inl t ↦ gone q t
            | inr f ↦ others q f ∙ is.filled q (rw (others q f) at h)
          ];
          apart = λ q r x h k. is.apart q r x (named_before q x h).1 (named_before r x k).1;
          opened = λ q x h.
              let (f, before) = named_before q x h in
              rw (==_of_ne b x (λ e. cc (f, is.apart q a x before (named ∙ ap some e))))
                (is.opened q x before);
        }

    left-Unloaded : e.value ≡ some b → Unloaded m a (some b) (unload a m)
    unfolding unload unload_if deleted dlbase_destroy
    left-Unloaded holds = (
      left,
      rw (fetch-lookup m is a, named, ran, is.key_dtor, is.val_dtor)
          (release-drop e b (record m { dic = d }) holds),
      left-IsMgr,
      ap value_of (gone a (alias_compare_self a)),
      λ q f. ap value_of (others q f),
      rw (==_self b) (ap (λ l. (m.libraries b).closed ++ l) (all_ruined (m.libraries b).base)),
      λ x n. rw (==_of_ne b x (λ e. n (sym e))) refl,
    )

  -- s1_dllib_unload in a sound manager: where the alias names no library, nothing changes; else it
  -- names none from then on, the other aliases name what they named, every version of its library is closed, which are
  -- the loaded one, one that is being loaded and those that were replaced, no version of another
  -- library is, and the manager is as sound as before.
  pub unload-Unloaded : Unloaded m a (lookup m a) (unload a m)
  unfolding unload unload_if
  unload-Unloaded = elim (Option-cases (lookup m a)) [
    | inl free ↦ rw free (rw (unload, fetch-lookup m is a, free) refl)
    | inr (b, named) ↦
        let (e, found, holds) = some_entry (view m.dic a) named in
        let (d, ran, valid, fewer, others) =
          subst
            (λ (o : Option (Entry Alias ℕ)).
              Deleted alias-IsKey m.dic is.valid a o (HashDic.delete m.dic a))
            found (delete-Deleted alias-IsKey m.dic is.valid a) in
        rw named (left-Unloaded b named d valid others e ran holds)
  ]
