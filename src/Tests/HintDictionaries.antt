-- ===== src/Tests/HintDictionaries.antt =====
-- A dictionary of hints with four slots.
use servcraft.Prelude.{◌≡◌, some, [], ◌∷◌, arith, if◌then◌else◌}
use servcraft.Util.Hashtable.View.{IsValid}
use servcraft.P7r.HintDictionary.{
  by_name, by_entrance, Hint, hint_callbacks, HintDictionary, put, get,
}
use servcraft.P7r.HintDictionary.Laws.{put-get, init-empty, held, matches}

abbrev empty : HintDictionary
empty = (init-empty 4 7 (omega arith)).0

abbrev hint : Hint
hint = record { name = by_entrance 4096; address = 32 }

put-get_example :
    (put_in got : HintDictionary) × (put empty hint ≡ some put_in)
    × (get put_in (by_name (119 ∷ []))
        ≡ some (
          (if matches (by_name (119 ∷ [])) (by_entrance 4096)
              then some hint
              else held empty (by_name (119 ∷ []))),
          got,
        ))
    × IsValid got.hashtable
put-get_example = put-get empty (init-empty 4 7 (omega arith)).2 hint (by_name (119 ∷ []))
