-- ===== src/Binding.antt =====
-- effects/binding: values looked up by name in the handlers that enclose the caller, and
-- effects/helpers.go's `GetHandler`, which finds the innermost one.
--
-- The scopes are the binding handlers' maps, the innermost first, as the context of each handler is
-- the one that it was installed in; the empty list is a context without a handler. A message is
-- handled at once, while no context is done.
pub mod Lookup
mod Tests
use effect_ive_go.Base.{Option, none, some, List, [], ◌∷◌}
use effect_ive_go.Helper.{
  Outcome, ret, missing, fault, ◌>>=◌, Err, wrapped, no_effect_handler, Typed, get_typed_value_of,
  must_get_typed_value,
}

-- `normalizeBindingMap`: `none` is a nil map.
unfoldable pub normalize_binding_map {ℓ} : {K D : Type ℓ} → Option (K → Option D) → K → Option D
normalize_binding_map none = λ key. none
normalize_binding_map (some bm) = bm

-- A context, by the maps of its binding handlers.
abbrev pub Scopes : Type 0 → Type 0 → Type 0
Scopes K D = List (K → Option D)

module _ {K D : Type 0} where
  -- `WithEffectHandler`.
  unfoldable pub with_effect_handler : Option (K → Option D) → Scopes K D → Scopes K D
  unfolding normalize_binding_map
  with_effect_handler bm ctx = normalize_binding_map bm ∷ ctx

  -- `GetHandler`: the innermost handler, with the context that it was installed in.
  unfoldable pub get_handler : Scopes K D → Option ((K → Option D) × Scopes K D)
  get_handler [] = none
  get_handler (h ∷ ctx) = some (h, ctx)

-- `delegateBindingEffect`: recovers from a panic with `ErrNoEffectHandler`, and from no other.
unfoldable pub delegate_binding_effect {ℓ} :
    {D : Type ℓ} → Outcome (Option D × Option Err) → Outcome (Option D × Option Err)
delegate_binding_effect (ret r) = ret r
delegate_binding_effect missing = ret (none, some no_effect_handler)
delegate_binding_effect fault = fault

-- The rest of `handle`, with what the map has for the key, and the effect in the context
-- above it.
unfoldable pub bound_or_delegated {ℓ} :
    {D : Type ℓ} → Option D → Outcome (Option D × Option Err) → Outcome (Option D × Option Err)
unfolding delegate_binding_effect
bound_or_delegated (some v) above = ret (some v, none)
bound_or_delegated none above = delegate_binding_effect above

module _ {K D : Type 0} where
  -- `handle` of a binding handler.
  unfoldable pub handle :
      (K → Option D) → K → Outcome (Option D × Option Err) → Outcome (Option D × Option Err)
  handle binding_map key above = bound_or_delegated (binding_map key) above

  -- `Effect`: it panics with `ErrNoEffectHandler` in a context without a handler. `none` is the
  -- value nil.
  unfoldable pub effect : Scopes K D → K → Outcome (Option D × Option Err)
  unfolding handle
  effect [] key = missing
  effect (h ∷ ctx) key = handle h key (effect ctx key)

module _ {K D : Type 0} {A : Type 0} (cast : Option D → Option A) where
  -- `GetFromEffect`.
  unfoldable pub get_from_effect : Scopes K D → K → Outcome (Typed A)
  unfolding get_typed_value_of
  get_from_effect ctx key = effect ctx key >>= λ r. ret (get_typed_value_of cast r)

  -- `MustGetFromEffect`.
  unfoldable pub must_get_from_effect : Scopes K D → K → Outcome A
  unfolding must_get_typed_value
  must_get_from_effect ctx key = effect ctx key >>= λ r. must_get_typed_value cast r
