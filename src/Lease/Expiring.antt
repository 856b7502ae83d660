-- ===== src/Lease/Expiring.antt =====
-- effects/lease: the registration of a resource whose leases expire, and its filter's goroutine.
--
-- The filter is the child of `LazyFilterEffect` between the ends of the pair; it is started in a
-- context with a concurrency handler.
pub mod Owners
pub mod Room
mod Tests
use effect_ive_go.Base.{
  ℕ, zero, suc, ◌+◌, ◌*◌, Bool, true, false, Option, none, some, List, [], ◌∷◌, ltb,
}
use effect_ive_go.Helper.{Outcome, ret, missing, ◌>>=◌}
use effect_ive_go.Combinators.{TryPick, Polled, poll_to_produce}
use effect_ive_go.Lease.{
  StateEffects, Heap, Channel, SourceSinkPair, Answer, set_at, set_channel, make_channel,
  typed_answer,
}

-- `WithEffectHandler`: panics without a stream handler or without a state handler in the context.
unfoldable pub with_effect_handler : Option ℕ → Option ℕ → Outcome (Unit {0})
with_effect_handler (some stream) (some state) = ret tt
with_effect_handler (some stream) none = missing
with_effect_handler none state = missing

-- `newFilterablePair`: the sink has no buffer.
unfoldable pub new_filterable_pair : ℕ → Heap → ℕ × Heap
new_filterable_pair num_owners heap = (
  heap.next_pair,
  record heap {
    pairs =
        set_at heap.next_pair (record { source = heap.next_channel; sink = heap.next_channel + 1 })
          heap.pairs;
    channels =
        set_at (heap.next_channel + 1) (make_channel 0)
          (set_at heap.next_channel (make_channel num_owners) heap.channels);
    next_pair = heap.next_pair + 1;
    next_channel = heap.next_channel + 2;
  },
)

-- A started `LazyFilterEffect`.
pub record Filter : Type 0 where
  pub source : ℕ
  pub sink : ℕ
  pub ttl : ℕ
  pub poll_interval : ℕ

-- `expire`, which holds while the lease has not expired.
unfoldable pub expire : ℕ → ℕ → ℕ → Bool
expire ttl now ts = ltb now (ts + ttl)

module _ {K S : Type 0} (ops : StateEffects K S) where
  -- `ResourceRegistrationEffect`, with the filters that were started.
  unfoldable pub registration :
      K → ℕ → ℕ → ℕ → S × Heap → List Filter → Outcome (Answer × S × Heap × List Filter)
  unfolding new_filterable_pair
  registration key num_owners ttl poll_interval (s, heap) filters =
      let (pair, heap') = new_filterable_pair num_owners heap in
      let filter : Filter = record {
        source = (heap'.pairs pair).source;
        sink = (heap'.pairs pair).sink;
        ttl = ttl;
        poll_interval = poll_interval;
      } in
      ops.insert_pair key pair s >>= λ r. ret (typed_answer r.0, r.1, heap', filter ∷ filters)

-- The filter's receive from the buffer of its source.
unfoldable pub receive : List ℕ → Filter → Heap → Option ℕ × Heap
receive [] filter heap = (none, heap)
receive (t ∷ ts) filter heap =
    (some t, set_channel filter.source (record (heap.channels filter.source) { times = ts }) heap)

-- The rounds of `pollToProduce` with a lease that was received at the time `start`.
unfoldable pub hold : Filter → ℕ → ℕ → List TryPick → Polled
unfolding poll_to_produce expire
hold filter start ts picks =
    poll_to_produce (λ calls t. expire filter.ttl (start + calls * filter.poll_interval) t) 0 ts
      picks
