-- ===== src/Lease/Expiring/Tests.antt =====
-- An expiring resource for one owner.
use effect_ive_go.Lease.Expiring.Owners.{Expiring, Reach, registered, owners}
use effect_ive_go.Lease.Expiring.Room.{filter_of, new_expiring, owners-bounded}
use effect_ive_go.Base.{◌≤◌, arith, ◌≡◌, refl, true, false, [], ◌∷◌, ℕ_discrete}
use effect_ive_go.Combinators.{not_ready, returned}
use effect_ive_go.Helper.{ret}
use effect_ive_go.Lease.{Heap, make_channel, done, blocks, acquire_at, set_channel}
use effect_ive_go.Lease.Expiring.{Filter, new_filterable_pair, receive, hold}

abbrev empty : Heap
empty = record {
  pairs = λ pair. record { source = 0; sink = 0 };
  channels = λ c. make_channel 0;
  next_pair = 0;
  next_channel = 4;
}

abbrev filter : Filter
filter = record { source = 4; sink = 5; ttl = 10; poll_interval = 3 }

-- The source holds the time 7 of one lease, and is full.
abbrev full : Heap
full = set_channel 4 (record (make_channel 1) { times = 7 ∷ [] }) (new_filterable_pair 1 empty).1

second_waits : acquire_at false 8 4 full ≡ ret (blocks, full)
unfolding acquire_at ℕ_discrete
second_waits = refl

-- The filter takes the lease, and there is room for a second owner before the first lease expires.
second_owner :
    acquire_at false 8 4 (receive (7 ∷ []) filter full).1
    ≡ ret (
      done true,
      set_channel 4 (record (make_channel 1) { times = 8 ∷ [] }) (receive (7 ∷ []) filter full).1,
    )
unfolding acquire_at receive ℕ_discrete new_filterable_pair
second_owner = refl

-- The filter holds the lease until it has expired, and drops it then.
dropped_at_last :
    hold filter 8 7 (not_ready ∷ not_ready ∷ not_ready ∷ not_ready ∷ [])
    ≡ returned false 4 (not_ready ∷ [])
unfolding hold
dropped_at_last = refl

owners-bounded_example :
    (owners (filter_of 1 10 3 empty) (new_expiring 1 7 empty) ≤ 2)
    × Unit {0}
    × ((full : Expiring) × Reach (filter_of 1 10 3 empty) (new_expiring 1 7 empty) full
        × (owners (filter_of 1 10 3 empty) full ≡ 2)
        × (full.clock ≡ 7)
        × (full.dropped ≡ []))
owners-bounded_example =
    owners-bounded 1 10 3 7 empty (new_expiring 1 7 empty) (omega arith) registered
