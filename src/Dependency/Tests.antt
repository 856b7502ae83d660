-- ===== src/Dependency/Tests.antt =====
-- Two nested handlers, with reflection on types that are numbers.
use effect_ive_go.Base.{
  Option, ℕ, ◌+◌, ◌≡◌, refl, true, none, some, [], ◌∷◌, ◌==◌, ltb, if◌then◌else◌,
}
use effect_ive_go.Helper.{Outcome, Outcome, ret, fault, ◌>>=◌, no_effect_handler}
use effect_ive_go.Dependency.{Reflect, Answer, leaves_goroutine, effect}
use effect_ive_go.Dependency.Resolve.{Chosen, answer, effect-first_match}

-- The dependency 0 is nil, the others are their types; type 10 + n points to type n, and only
-- type 12 has the methods of interface 2.
abbrev numbered : Reflect ℕ ℕ ℕ
numbered = record {
  type_of = λ dep. if dep == 0 then none else some dep;
  is_ptr = λ t. ltb 10 t;
  has_pointer_to = true;
  pointer_to = λ t. t + 10;
  ptr_to = λ t. t + 10;
  implements_interface = λ t duck. t == (duck + 10);
}

abbrev name_of : ℕ → ℕ → Outcome (Answer ℕ × ℕ)
name_of dep calls = ret ((some dep, none), calls + 1)

-- The value 2 is found, as a pointer to it has the methods, before the pointer 12.
value_before_pointer :
    effect numbered name_of ((1 ∷ 3 ∷ []) ∷ (2 ∷ 12 ∷ []) ∷ []) 2 5 ≡ ret ((some 2, none), 6)
unfolding effect
value_before_pointer = refl

nil_first : effect numbered name_of ((0 ∷ 2 ∷ []) ∷ []) 2 5 ≡ fault
unfolding effect
nil_first = refl

unresolved : effect numbered name_of ((1 ∷ []) ∷ []) 2 5 ≡ ret ((none, some no_effect_handler), 5)
unfolding effect
unresolved = refl

effect-first_match_example :
    (found : Outcome (Option ℕ)) × Chosen numbered 2 (1 ∷ 3 ∷ 2 ∷ 12 ∷ []) found
    × (effect numbered name_of ((1 ∷ 3 ∷ []) ∷ (2 ∷ 12 ∷ []) ∷ []) 2 5
        ≡ leaves_goroutine (found >>= answer name_of 5))
effect-first_match_example =
    effect-first_match numbered name_of (1 ∷ 3 ∷ []) ((2 ∷ 12 ∷ []) ∷ []) 2 5
