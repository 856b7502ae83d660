-- ===== src/Registry.antt =====
-- effects/stream: the registry of the sinks that are subscribed to a source (`channelRegistry` of
-- stream.go, with the types of type.go), and the goroutine that passes a source's messages on.
--
-- Channels and sources are numbers, as the registry's keys are pointers; a list of subscriptions is
-- stored by its address, which the compare-and-swap compares. A message of the registry is handled
-- at once, but `ended` lets the source's arbiter remove the entry between the load and the swap.
-- Contexts live.
pub mod Subscriptions
pub mod Deliver
mod Tests
use effect_ive_go.Base.{
  ℕ, zero, suc, ◌+◌, ◌<◌, ◌≡◌, refl, Bool, true, false, Option, none, some, List, [], ◌∷◌, ◌++◌,
  ◌==◌, if◌then◌else◌, ltb, length, ℕ_discrete,
}
use effect_ive_go.Helper.{Outcome, ret, missing, fault, ◌>>=◌, Err, fail_to_cas, retry}
use effect_ive_go.State.{update}

-- `sinkDropPair`.
pub record SinkDropPair : Type 0 where
  pub sink : ℕ
  pub dropped : Option ℕ

-- `newSinkDropPair`; `none` is a nil channel, for which it panics.
unfoldable pub new_sink_drop_pair : Option ℕ → Option ℕ → Outcome SinkDropPair
new_sink_drop_pair (some sink) (some dropped) = ret (record { sink = sink; dropped = some dropped })
new_sink_drop_pair (some sink) none = fault
new_sink_drop_pair none dropped = fault

-- The values of the registry's map: a `*RegisteredList` with its address, or the bare slice that
-- `unsubscribe` stores.
pub data Stored : Type 0 where
  registered_list : ℕ → List SinkDropPair → Stored
  bare_slice : List SinkDropPair → Stored

pub record Registry : Type 0 where
  pub entries : ℕ → Option Stored
  pub next_address : ℕ
  pub arbiters : List ℕ  -- the sources whose `arbit` was started

abbrev pub put : ℕ → Option Stored → Registry → Registry
put key entry reg = record reg { entries = update ℕ_discrete reg.entries key entry }

-- `GetTypedValueOf2[*RegisteredList[T]]` on a load.
abbrev pub as_registered : Option Stored → Option (ℕ × List SinkDropPair)
as_registered none = none
as_registered (some (registered_list address pairs)) = some (address, pairs)
as_registered (some (bare_slice pairs)) = none

-- `sync.Map.CompareAndSwap` with the address of the old list, at what the map has for the key.
unfoldable pub swap_at : Option Stored → ℕ → ℕ → Stored → Registry → Bool × Registry
swap_at none key old new reg = (false, reg)
swap_at (some (bare_slice pairs)) key old new reg = (false, reg)
swap_at (some (registered_list address pairs)) key old new reg =
    if address == old then (true, put key (some new) reg) else (false, reg)

unfoldable pub compare_and_swap : ℕ → ℕ → Stored → Registry → Bool × Registry
compare_and_swap key old new reg = swap_at (reg.entries key) key old new reg

abbrev pub no_error_if : Bool → Option Err
no_error_if true = none
no_error_if false = some fail_to_cas

-- The arbiter's `CompareAndDelete` at the end of the source.
abbrev pub interfere : Bool → ℕ → Registry → Registry
interfere ended key reg = if ended then put key none reg else reg

-- `tryRegisterSink`: each attempt allocates a list.
unfoldable pub try_register_sink :
    ℕ → ℕ → List SinkDropPair → SinkDropPair → Registry → Outcome (Option Err × Registry)
unfolding compare_and_swap
try_register_sink key old pairs pair reg =
    let (swapped, reg') =
      compare_and_swap key old (registered_list reg.next_address (pairs ++ pair ∷ []))
        (record reg { next_address = reg.next_address + 1 }) in
    ret (no_error_if swapped, reg')

-- What `subscribe` does with the entry that it loaded.
unfoldable pub subscribe_to :
    Option Stored → Bool → ℕ → SinkDropPair → Registry → Outcome (Option Err × Registry)
unfolding try_register_sink retry
subscribe_to none ended key pair reg = ret (
  none,
  record reg {
    entries =
        update ℕ_discrete reg.entries key (some (registered_list reg.next_address (pair ∷ [])));
    next_address = reg.next_address + 1;
    arbiters = key ∷ reg.arbiters;
  },
)
subscribe_to (some (bare_slice pairs)) ended key pair reg = ret (none, reg)
subscribe_to (some (registered_list old pairs)) ended key pair reg =
    retry 5 (try_register_sink key old pairs pair) (interfere ended key reg)

unfoldable pub subscribe :
    Bool → ℕ → Option ℕ → Option ℕ → Registry → Outcome (Option Err × Registry)
unfolding new_sink_drop_pair subscribe_to
subscribe ended key sink dropped reg =
    new_sink_drop_pair sink dropped >>= λ pair. subscribe_to (reg.entries key) ended key pair reg

-- `getIdxOf` and the slice without that element; `none` if no pair has the sink.
unfoldable pub without_sink : ℕ → List SinkDropPair → Option (List SinkDropPair)
without_sink sink [] = none
without_sink sink (pair ∷ pairs) =
    let rest = without_sink sink pairs in
    if pair.sink == sink
    then some pairs
    else elim rest [ none ↦ none | some kept ↦ some (pair ∷ kept) ]

-- `tryUnregisterSink`: the new value is the slice, not a list's address.
unfoldable pub try_unregister_sink :
    ℕ → ℕ → List SinkDropPair → Registry → Outcome (Option Err × Registry)
unfolding compare_and_swap
try_unregister_sink key old kept reg =
    let (swapped, reg') = compare_and_swap key old (bare_slice kept) reg in
    ret (no_error_if swapped, reg')

unfoldable pub unsubscribe_from :
    Option (List SinkDropPair) → Bool → ℕ → ℕ → Registry → Outcome (Option Err × Registry)
unfolding try_unregister_sink retry
unsubscribe_from none ended key old reg = ret (none, reg)
unsubscribe_from (some kept) ended key old reg =
    retry 5 (try_unregister_sink key old kept) (interfere ended key reg)

unfoldable pub unsubscribe_at :
    Option (ℕ × List SinkDropPair) → Bool → ℕ → ℕ → Registry → Outcome (Option Err × Registry)
unfolding unsubscribe_from
unsubscribe_at none ended key sink reg = ret (none, reg)
unsubscribe_at (some (old, pairs)) ended key sink reg =
    unsubscribe_from (without_sink sink pairs) ended key old reg

unfoldable pub unsubscribe : Bool → ℕ → ℕ → Registry → Outcome (Option Err × Registry)
unfolding without_sink
unsubscribe ended key sink reg = unsubscribe_at (as_registered (reg.entries key)) ended key sink reg

-- `subscribePayload` and `unsubscribePayload`; `none` is a nil channel. An unsubscription has no
-- channel for dropped messages.
pub data Payload : Type 0 where
  subscribe_payload : ℕ → Option ℕ → Option ℕ → Payload
  unsubscribe_payload : ℕ → ℕ → Payload

-- `SourceAsKey.String`, on which the channel of a message is chosen.
unfoldable pub partition_key : Payload → ℕ
partition_key (subscribe_payload source sink dropped) = source
partition_key (unsubscribe_payload source sink) = source

-- `handleEffect`: all payloads are of these two types, as the interface is sealed.
unfoldable pub handle_effect : Bool → Payload → Registry → Outcome (Option Err × Registry)
unfolding subscribe unsubscribe
handle_effect ended (subscribe_payload source sink dropped) reg =
    subscribe ended source sink dropped reg
handle_effect ended (unsubscribe_payload source sink) reg = unsubscribe ended source sink reg

-- `WithEffectHandler`, which panics without a concurrency handler in the parent's context.
unfoldable pub with_effect_handler : Option ℕ → Outcome Registry
with_effect_handler none = missing
with_effect_handler (some concurrency_handler) =
    ret (record { entries = λ key. none; next_address = 0; arbiters = [] })

-- The closing function: the map is cleared, and the arbiters run on.
unfoldable pub end_of_stream_handler : Registry → Registry
end_of_stream_handler reg = record reg { entries = λ key. none }

-- `SubscribeEffect` and `UnsubscribeEffect`: nobody reads the answer, so an error is lost.
unfoldable pub subscribe_effect : Bool → ℕ → Option ℕ → Option ℕ → Registry → Outcome Registry
unfolding handle_effect
subscribe_effect ended source sink dropped reg =
    handle_effect ended (subscribe_payload source sink dropped) reg >>= λ r. ret r.1

unfoldable pub unsubscribe_effect : Bool → ℕ → ℕ → Registry → Outcome Registry
unfolding handle_effect
unsubscribe_effect ended source sink reg =
    handle_effect ended (unsubscribe_payload source sink) reg >>= λ r. ret r.1
