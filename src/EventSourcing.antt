-- ===== src/EventSourcing.antt =====
-- `EventSourcingEffect` of effects/state/state.go, where a state handler's events meet the registry
-- of the streams' sinks.
--
-- `sink_address` is the address of the innermost state handler's sink, as the registry's keys are
-- channels by their addresses.
mod Tests
use effect_ive_go.Base.{ℕ, Bool, Option, none, some}
use effect_ive_go.Helper.{Outcome, ret, ◌>>=◌, Typed, ok, failed, get_typed_value_of}
use effect_ive_go.State.{Values, source}
use effect_ive_go.State.Delegate.{Dynamic, nil, bool, val, sink_of}
use effect_ive_go.State.Stack.{Stack, effect}
use effect_ive_go.Registry.{Registry, subscribe_effect}

-- The assertion to a channel of events.
abbrev pub as_sink : {V : Type 0} → ℕ → Dynamic V → Option ℕ
as_sink sink_address sink_of = some sink_address
as_sink sink_address _ = none

-- What `EventSourcingEffect` does with the source that it got; its error is only logged.
unfoldable pub subscribe_source : Typed ℕ → Bool → Option ℕ → Option ℕ → Registry → Outcome Registry
unfolding subscribe_effect
subscribe_source (ok src) ended sink dropped reg = subscribe_effect ended src sink dropped reg
subscribe_source (failed e) ended sink dropped reg = ret reg

module _ {K V : Type 0} (T : Type 0) (dec : Discrete K) (vs : Values V) (now sink_address : ℕ) where
  -- `effectSource`.
  unfoldable pub effect_source : (n : ℕ) → Stack n K V T → Outcome (Typed ℕ × Stack n K V T)
  unfolding effect get_typed_value_of
  effect_source n s = effect T dec vs now n s source >>= λ r.
      ret (get_typed_value_of (as_sink sink_address) r.0, r.1)

  unfoldable pub event_sourcing_effect :
      (n : ℕ)
      → Bool
      → Option ℕ
      → Option ℕ
      → Stack n K V T
      → Registry
      → Outcome (Stack n K V T × Registry)
  unfolding effect_source subscribe_source
  event_sourcing_effect n ended sink dropped s reg = effect_source n s >>= λ r.
      subscribe_source r.0 ended sink dropped reg >>= λ reg'. ret (r.1, reg')
