-- ===== src/Task/Tests.antt =====
-- The task handler's answers; the error 0 is that of a closed channel.
use effect_ive_go.Base.{ℕ, ◌≡◌, refl, true, false, Option, none, some, [], ◌∷◌}
use effect_ive_go.Task.{Result, handle}

-- While the context lives, the answer is the function's result, or there is none.
lives :
    (r : Option (Result ℕ ℕ))
    → handle 0 none false false r ≡ elim r [ none ↦ [] | some res ↦ res ∷ [] ]
unfolding handle
lives none = refl
lives (some res) = refl

-- When it ends while the function runs, the select may take either error.
two_errors :
    handle {D = ℕ} {E = ℕ} 0 (some 3) false true (some (some 8, none))
    ≡ (none, some 0) ∷ (none, some 3) ∷ []
unfolding handle
two_errors = refl

-- A function that does not return is given up with the context.
given_up : handle {D = ℕ} {E = ℕ} 0 (some 3) false true none ≡ (none, some 3) ∷ []
unfolding handle
given_up = refl
