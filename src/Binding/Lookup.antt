-- ===== src/Binding/Lookup.antt =====
-- A name is looked up in the scopes from the inside out (effects/binding).
use effect_ive_go.Base.{◌≡◌, refl, ap, Option, none, some, [], ◌∷◌}
use effect_ive_go.Helper.{
  Outcome, ret, missing, ◌>>=◌, Err, wrapped, no_effect_handler, unexpected_type, Typed, ok, failed,
  get_typed_value_of, must_get_typed_value,
}
use effect_ive_go.Binding.{
  Scopes, with_effect_handler, normalize_binding_map, handle, delegate_binding_effect,
  bound_or_delegated, effect, get_from_effect, must_get_from_effect,
}

-- The reply for what is bound to a key.
unfoldable pub reply : {D : Type 0} → Option D → Option D × Option Err
reply (some v) = (some v, none)
reply none = (none, some no_effect_handler)

module _ {D A : Type 0} (cast : Option D → Option A) where
  -- The typed value for what is bound to the key.
  unfoldable typed_binding : Option D → Typed A
  typed_binding none = failed (wrapped no_effect_handler)
  typed_binding (some v) = elim (cast (some v)) [ some a ↦ ok a | none ↦ failed unexpected_type ]

  typed-reply : (b : Option D) → get_typed_value_of cast (reply b) ≡ typed_binding b
  unfolding get_typed_value_of reply typed_binding
  typed-reply none = refl
  typed-reply (some v) = refl

  must-reply :
      (b : Option D)
      → must_get_typed_value cast (reply b)
        ≡ elim (typed_binding b) [ ok a ↦ ret a | failed e ↦ missing ]
  unfolding must_get_typed_value get_typed_value_of reply typed_binding
  must-reply none = refl
  must-reply (some v) = refl

module _ {D : Type 0} where
  abbrev or_else : Option D → Option D → Option D
  or_else (some v) rest = some v
  or_else none rest = rest

  handled :
      (b rest : Option D) (above : Outcome (Option D × Option Err))
      → delegate_binding_effect above ≡ ret (reply rest)
      → bound_or_delegated b above ≡ ret (reply (or_else b rest))
  unfolding bound_or_delegated reply
  handled (some v) rest above e = refl
  handled none rest above e = e

module _ {K D : Type 0} where
  -- The value that the innermost scope with a value for the key gives it.
  unfoldable pub first_binding : Scopes K D → K → Option D
  first_binding [] key = none
  first_binding (bm ∷ ctx) key = or_else (bm key) (first_binding ctx key)

  delegate_effect :
      (ctx : Scopes K D) (key : K)
      → delegate_binding_effect (effect ctx key) ≡ ret (reply (first_binding ctx key))
  unfolding effect handle first_binding delegate_binding_effect reply
  delegate_effect [] key = refl
  delegate_effect (bm ∷ ctx) key =
      ap delegate_binding_effect
        (handled (bm key) (first_binding ctx key) (effect ctx key) (delegate_effect ctx key))

  -- The lookup below at least one binding handler, with a nil map or not, never panics: it returns
  -- the value of the innermost scope that binds the key, or no value and `ErrNoEffectHandler` if
  -- none does.
  pub effect-first_binding :
      (bm : Option (K → Option D)) (ctx : Scopes K D) (key : K)
      → effect (with_effect_handler bm ctx) key
        ≡ ret (reply (first_binding (with_effect_handler bm ctx) key))
  unfolding effect handle first_binding with_effect_handler
  effect-first_binding bm ctx key =
      handled (normalize_binding_map bm key) (first_binding ctx key) (effect ctx key)
        (delegate_effect ctx key)

  module _ {A : Type 0} (cast : Option D → Option A) where
    -- `GetFromEffect` and `MustGetFromEffect` below at least one binding handler look up the
    -- innermost binding and cast it. The first returns the value, or an error for a missing key or
    -- another type; the second returns the value where the first does, and panics with
    -- `ErrNoEffectHandler` where the first fails.
    get_from-first_binding :
        (bm : Option (K → Option D)) (ctx : Scopes K D) (key : K)
        → (get_from_effect cast (with_effect_handler bm ctx) key
            ≡ ret (typed_binding cast (first_binding (with_effect_handler bm ctx) key)))
          × (must_get_from_effect cast (with_effect_handler bm ctx) key
              ≡ elim (typed_binding cast (first_binding (with_effect_handler bm ctx) key)) [
                | ok a ↦ ret a
                | failed e ↦ missing
              ])
    unfolding get_from_effect must_get_from_effect
    get_from-first_binding bm ctx key = (
      rw (effect-first_binding bm ctx key, ◌>>=◌) (ap ret (typed-reply cast _)),
      rw (effect-first_binding bm ctx key, ◌>>=◌) (must-reply cast _),
    )
