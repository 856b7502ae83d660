-- ===== src/Singed/Tests.antt =====
-- Singed's coordinates and ticks.
use effect_ive_go.Base.{ℕ, ◌≡◌, refl, false, some, [], ◌∷◌}
use effect_ive_go.Helper.{Outcome, ret, fault, ◌>>=◌}
use effect_ive_go.Singed.{string_of, next_coord, tick, new_actor, actor_move, adjust_hp, move}

-- All negative coordinates have one text, and `nextCoord` looks its arguments up by their texts.
negative_texts : string_of 4294967295 ≡ string_of 4294967290
unfolding string_of
negative_texts = refl

-- From 2000000000 to the coordinate -2000000000, the distance wraps, and the move goes up.
wraps : next_coord 2000000000 2294967296 7 ≡ 2000000007
unfolding next_coord
wraps = refl

-- The first tick makes an `adjustHP`, and the second one runs it, which panics.
abbrev silent : Unit {0} → ℕ → ℕ → Outcome ℕ
silent cb coord w = ret w

first_tick :
    (actor_move 3 2 (tt ∷ []) new_actor >>= λ a. tick silent next_coord a 0)
    ≡ ret (record { coordinate = 2; jobs = adjust_hp ∷ move 3 2 (some tt) ∷ []; closed = false }, 0)
unfolding actor_move new_actor tick next_coord
first_tick = refl

second_tick :
    tick silent next_coord
      (record { coordinate = 2; jobs = adjust_hp ∷ move 3 2 (some tt) ∷ []; closed = false })
      0
    ≡ fault
unfolding tick
second_tick = refl
