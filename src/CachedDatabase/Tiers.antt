-- ===== src/CachedDatabase/Tiers.antt =====
-- examples/cached_database/main.go: a cache that delegates to a database, and what `main` does with
-- them.
--
-- The two stores are parameters, as is the address of each state handler's sink. A log line is its
-- data: what the package log prints of it is I/O. `now` is the clock's reading.
pub mod Trials
pub mod Final
pub mod Deferred
pub mod Main
use effect_ive_go.Base.{ℕ, Bool, true, false, Option, none, some, List, [], ◌∷◌, ◌++◌}
use effect_ive_go.Helper.{Outcome, ret, missing, fault, ◌>>=◌, Err, Typed, ok, failed}
use effect_ive_go.State.{Values, Payload, StateStore}
use effect_ive_go.State.Delegate.{Event, Handler}
use effect_ive_go.State.Stack.{
  Stack, insert_if_absent_effect, compare_and_swap_effect, load_effect, new_state_handler, or_zero,
}
use effect_ive_go.Concurrency.{Supervisor, with_effect_handler, spawn, waiting}
use effect_ive_go.Registry.{Registry}
use effect_ive_go.EventSourcing.{effect_source, event_sourcing_effect}

-- The messages that `main` logs. `none` in a place of an event is the end of the context.
pub data Line (K V : Type 0) : Type 0 where
  insert_attempt : (key : K) (value : V) (success : Bool) (error : Option Err) → Line K V
  cas_attempt : (key : K) (old new : V) (success : Bool) (error : Option Err) → Line K V
  final_state : (key : K) (value : V) → Line K V
  event : (name : ℕ) (payload : Payload K V) (timestamp : ℕ) → Line K V

-- `ok, err` of a typed result.
abbrev pub success_of : Typed Bool → Bool
success_of (ok b) = b
success_of (failed e) = false

abbrev pub error_of : Typed Bool → Option Err
error_of (ok b) = none
error_of (failed e) = some e

-- `watchEventsFrom`: the cases that its select takes, until that of the context.
unfoldable pub watch_events_from :
    {K V : Type 0} → ℕ → List (Option (Event K V)) → List (Line K V) → List (Line K V)
watch_events_from name [] out = out
watch_events_from name (none ∷ cases) out = out
watch_events_from name (some msg ∷ cases) out =
    watch_events_from name cases (out ++ event name msg.payload msg.from ∷ [])

-- The keys and values of the trials.
pub record Data (K V : Type 0) : Type 0 where
  pub key1 : K
  pub key2 : K
  pub key3 : K
  pub person1 : V
  pub person2 : V
  pub person3 : V

-- The addresses of the two handlers' sinks and of the channels of `main`.
pub record Channels : Type 0 where
  pub db_sink : ℕ
  pub db_source : ℕ
  pub cache_sink : ℕ
  pub cache_source : ℕ
  pub dropped : ℕ

-- `main` panics if a store cannot be opened.
abbrev pub opened {ℓ} : {S : Type ℓ} → Option S → Outcome S
opened none = fault
opened (some store) = ret store

module _ {K V : Type 0} (T : Type 0) (dec : Discrete K) (vs : Values V) (now : ℕ) where
  abbrev pub Run : Type 0
  Run = Stack 2 K V T × List (Line K V)

  unfoldable pub insert_and_log : K → V → Run → Outcome Run
  unfolding insert_if_absent_effect
  insert_and_log key person (s, out) = insert_if_absent_effect T dec vs now 2 key person s >>= λ r.
      ret (r.1, out ++ insert_attempt key person (success_of r.0) (error_of r.0) ∷ [])

  unfoldable pub cas_and_log : K → V → V → Run → Outcome Run
  unfolding compare_and_swap_effect
  cas_and_log key old new (s, out) = compare_and_swap_effect T dec vs now 2 key old new s >>= λ r.
      ret (r.1, out ++ cas_attempt key old new (success_of r.0) (error_of r.0) ∷ [])

  -- The loop over the keys at the end: both branches log the same, the zero value beside an error.
  unfoldable pub log_final_state : V → List K → Run → Outcome Run
  unfolding load_effect
  log_final_state zero_ [] run = ret run
  log_final_state zero_ (key ∷ keys) (s, out) = load_effect T dec vs now 2 key s >>= λ r.
      log_final_state zero_ keys (r.1, out ++ final_state key (or_zero zero_ r.0) ∷ [])

  -- The insert trials, the update and the final state.
  unfoldable pub trials : V → Data K V → Run → Outcome Run
  unfolding insert_and_log cas_and_log log_final_state
  trials zero_ d run = insert_and_log d.key1 d.person1 run >>= λ run.
      insert_and_log d.key1 d.person2 run >>= λ run. insert_and_log d.key2 d.person2 run >>= λ run.
      insert_and_log d.key3 d.person3 run >>= λ run. insert_and_log d.key1 d.person3 run >>= λ run.
      cas_and_log d.key2 d.person2 d.person3 run >>= λ run.
      log_final_state zero_ (d.key1 ∷ d.key2 ∷ d.key3 ∷ []) run

  -- `EventSourcingEffect` in a context that may have no stream handler, where it panics once it has
  -- the source.
  unfoldable pub subscribe_events :
      ℕ
      → (n : ℕ) → ℕ
      → ℕ
      → Stack n K V T
      → Option Registry
      → Outcome (Stack n K V T × Option Registry)
  unfolding effect_source event_sourcing_effect
  subscribe_events sink_address n sink dropped s none =
      effect_source T dec vs now sink_address n s >>= λ r. elim r.0 [
        | ok src ↦ missing
        | failed e ↦ ret (r.1, none)
      ]
  subscribe_events sink_address n sink dropped s (some reg) =
      event_sourcing_effect T dec vs now sink_address n false (some sink) (some dropped) s reg
      >>= λ r. ret (r.0, some r.1)

  -- `main`, with the registry of the stream handler, if its context had one, up to its deferred
  -- calls, of which the last, the closing function of the concurrency handler, waits for the two
  -- watchers: what it logged, and that handler's supervisor. The stores are those of
  -- `NewMemDBStore` and `NewRistretto`, `none` beside an error.
  unfoldable pub main :
      Channels
      → Option (StateStore K V T)
      → Option (StateStore K V T)
      → V
      → Data K V
      → Option Registry
      → Outcome (Run × Supervisor)
  unfolding new_state_handler subscribe_events trials with_effect_handler spawn
  main c opened_db opened_cache zero_ d streams = opened opened_db >>= λ db.
      let db_handler : Handler K V T = new_state_handler 1 false db [] in
      subscribe_events c.db_sink 1 c.db_source c.dropped (db_handler, tt) streams >>= λ a.
      let one_watcher = spawn with_effect_handler in
      opened opened_cache >>= λ cache.
      let cache_handler : Handler K V T = new_state_handler 1 true cache [] in
      subscribe_events c.cache_sink 2 c.cache_source c.dropped (cache_handler, a.0) a.1 >>= λ b.
      let both_watchers = spawn one_watcher in
      trials zero_ d (b.0, []) >>= λ run. ret (run, record both_watchers { closing = waiting })
