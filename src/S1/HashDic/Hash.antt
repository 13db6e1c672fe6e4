-- ===== src/S1/HashDic/Hash.antt =====
-- The two string hashes of the repository agree.
use servcraft.Prelude.{
  ℕ, ◌+◌, ◌*◌, ◌<◌, ◌≡◌, refl, List, [], ◌∷◌, arith, ◌==◌, inl, inr, Bool-cases, ltb, All,
}
use servcraft.Util.Hashtable
use servcraft.S1.HashDic.{u32, char_to_u32, djb_loop, s1_hasher_cstring_djb}

-- One turn of either loop, for a byte.
turns_agree :
    (h c : ℕ)
    → c < 256
    → u32 (u32 (u32 (u32 h * 32) + u32 h) + char_to_u32 c)
      ≡ u32 (Hashtable.u64 (Hashtable.u64 (Hashtable.u64 (h * 32) + h) + Hashtable.char_to_u64 c))
turns_agree h c b = elim (Bool-cases (ltb c 128)) [
  | inl low ↦ rw low (omega arith)
  | inr high ↦ rw high (omega arith)
]

loops_agree :
    (cs : List ℕ) (h : ℕ)
    → All (λ c. c < 256) cs
    → djb_loop (u32 h) cs ≡ u32 (Hashtable.djb_loop h cs)
unfolding djb_loop Hashtable.djb_loop
loops_agree [] h b = refl
loops_agree (c ∷ cs) h b = elim (Bool-cases (c == 0)) [
  | inl end ↦ rw end
  | inr more ↦ rw (more, turns_agree h c b.0) (loops_agree cs _ b.1)
]

-- On every string of bytes, s1_hasher_cstring_djb is the low half of scraft_hashaux_djb_cstring.
pub djb_low_half :
    (cs : List ℕ)
    → All (λ c. c < 256) cs
    → s1_hasher_cstring_djb cs ≡ u32 (Hashtable.djb_cstring cs)
unfolding s1_hasher_cstring_djb Hashtable.djb_cstring
djb_low_half cs b = loops_agree cs 5381 b
