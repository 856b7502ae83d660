-- ===== src/Binding/Tests.antt =====
-- Two nested scopes, of which the inner one shadows a name of the outer one.
use effect_ive_go.Base.{ℕ, ◌≡◌, refl, Option, none, some, [], ◌∷◌, ◌==◌, if◌then◌else◌}
use effect_ive_go.Helper.{ret}
use effect_ive_go.Binding.{Scopes, with_effect_handler, effect}
use effect_ive_go.Binding.Lookup.{first_binding, reply, effect-first_binding}

abbrev outer : ℕ → Option ℕ
outer key = if key == 1 then some 10 else if key == 2 then some 20 else none

abbrev inner : ℕ → Option ℕ
inner key = if key == 1 then some 11 else none

abbrev ctx : Scopes ℕ ℕ
ctx = outer ∷ []

effect-first_binding_example :
    effect (with_effect_handler (some inner) ctx) 1
    ≡ ret (reply (first_binding (with_effect_handler (some inner) ctx) 1))
effect-first_binding_example = effect-first_binding (some inner) ctx 1

inner_first : first_binding (with_effect_handler (some inner) ctx) 1 ≡ some 11
unfolding first_binding with_effect_handler
inner_first = refl

outer_next : first_binding (with_effect_handler (some inner) ctx) 2 ≡ some 20
unfolding first_binding with_effect_handler
outer_next = refl
