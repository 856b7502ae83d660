-- ===== src/Singed/Table/Tests.antt =====
-- `nextCoord` through its table.
use effect_ive_go.Base.{ℕ, ◌≡◌, refl, some, [], ◌∷◌, arith}
use effect_ive_go.Trie.{Trie, ◌>>=◌, new_trie}
use effect_ive_go.Tableize.{table_keys}
use effect_ive_go.Singed.Table.{Argument, coordinate, int32, stringer, next_coords}
use effect_ive_go.Singed.Table.Arrival.{next_coords-arrive}

-- A step from -1 and one from -6 have the same keys, so the second gets the first one's result.
same_keys :
    table_keys stringer (coordinate 4294967295 ∷ coordinate 100 ∷ int32 2 ∷ [])
    ≡ table_keys stringer (coordinate 4294967290 ∷ coordinate 100 ∷ int32 2 ∷ [])
unfolding table_keys stringer
same_keys = refl

next_coords-arrive_example :
    (memo : Trie Argument ℕ) × ((new_trie 8 >>= next_coords 4 10 0 3) ≡ some (0, memo))
next_coords-arrive_example =
    next_coords-arrive 8 4 10 0 3 (omega arith) (omega arith) (omega arith) (omega arith)
      (omega arith) (omega arith) (omega arith)
