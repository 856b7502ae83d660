-- ===== src/CachedDatabase/Tiers/Main.antt =====
-- `main` of examples/cached_database/main.go, with a stream handler and without one.
use effect_ive_go.Base.{ℕ, ◌≡◌, some, [], ◌∷◌, ◌+◌}
use effect_ive_go.Helper.{Outcome, ret}
use effect_ive_go.State.{Values, StateStore}
use effect_ive_go.State.Delegate.{Handler}
use effect_ive_go.State.Memory.{Map, Refines}
use effect_ive_go.State.Stack.{Stack}
use effect_ive_go.State.Tiers.{Identities, Tiers}
use effect_ive_go.CachedDatabase.Tiers.{Data, Run}
use effect_ive_go.Base.{ℕ_discrete, ◌+◌}
use effect_ive_go.Concurrency.{Supervisor}
use effect_ive_go.CachedDatabase.Tiers.Deferred.{waits_for_watchers}
use effect_ive_go.Registry.{Registry, registered_list}
use effect_ive_go.State.{update}
use effect_ive_go.CachedDatabase.Tiers.Final.{trial_lines}

-- A handler's events, subscribed to for the first time.
abbrev registered : ℕ → ℕ → ℕ → Registry → Registry
registered address sink dropped reg = record {
  entries = update ℕ_discrete reg.entries address (
      some
        (registered_list reg.next_address (record { sink = sink; dropped = some dropped } ∷ [])));
  next_address = reg.next_address + 1;
  arbiters = address ∷ reg.arbiters;
}

module _ {K V T : Type 0} (dec : Discrete K) (vs : Values V)
    (is_map : StateStore K V T → Map dec vs → Type 0) (refines : Refines dec vs is_map)
    (ids : Identities dec vs) (now : ℕ) where
  -- After `main`'s trials: the cache has the map `m`, and the database `d`.
  pub record Finished (x : Data K V) (r : Outcome (Run T dec vs now × Supervisor)) : Type 0 where
    pub after : Stack 2 K V T
    pub returns : r ≡ ret ((after, trial_lines x), waits_for_watchers)
    pub m : Map dec vs
    pub d : Map dec vs
    pub is_left : Tiers dec vs is_map 1 after (m ∷ d ∷ [])
    pub cache1 : m x.key1 ≡ some x.person1
    pub cache2 : m x.key2 ≡ some x.person3
    pub cache3 : m x.key3 ≡ some x.person3
    pub db1 : d x.key1 ≡ some x.person3
    pub db2 : d x.key2 ≡ some x.person3
    pub db3 : d x.key3 ≡ some x.person3
