-- ===== src/EventSourcing/Tests.antt =====
-- The events of a handler, subscribed to.
use effect_ive_go.Base.{ℕ, ◌≡◌, refl, false, Option, none, some, [], ◌∷◌, ◌==◌, ℕ_discrete}
use effect_ive_go.Helper.{ret, ◌>>=◌}
use effect_ive_go.State.{Values, cas_impl, in_mem_store}
use effect_ive_go.State.Delegate.{Handler}
use effect_ive_go.Registry.{Registry, registered_list}
use effect_ive_go.EventSourcing.{event_sourcing_effect}

abbrev values : Values ℕ
values = record { type_of = λ v. 0; equatable = λ v. none; same = ◌==◌ }

abbrev handler : Handler ℕ ℕ (ℕ → Option ℕ)
handler = record {
  store = cas_impl (in_mem_store ℕ_discrete values) (λ k. none);
  timers = λ k. none;
  clocks = [];
  senders = [];
  sink = [];
  sink_cap = 4;
  delegation = false;
}

abbrev empty : Registry
empty = record { entries = λ key. none; next_address = 0; arbiters = [] }

-- The handler's sink is the source 7, for which the pair of the sinks 1 and 2 is registered.
registered :
    (event_sourcing_effect
        (ℕ → Option ℕ)
        ℕ_discrete
        values
        0
        7
        1
        false
        (some 1)
        (some 2)
        (handler, tt)
        empty
      >>= λ r. ret (r.1.entries 7))
    ≡ ret (some (registered_list 0 (record { sink = 1; dropped = some 2 } ∷ [])))
unfolding event_sourcing_effect ℕ_discrete
registered = refl
