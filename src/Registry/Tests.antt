-- ===== src/Registry/Tests.antt =====
-- Two sinks subscribed to a source, one of them unsubscribed, and messages to both.
use effect_ive_go.Base.{
  ℕ, zero, suc, ◌≡◌, refl, Bool, true, false, Option, none, some, [], ◌∷◌, ◌++◌, arith, ℕ_discrete,
}
use effect_ive_go.Helper.{ret, max_attempts, fail_to_cas}
use effect_ive_go.Registry.{
  SinkDropPair, Stored, registered_list, Registry, subscribe, unsubscribe, without_sink,
}
use effect_ive_go.Registry.Subscriptions.{
  started_for, serves, Unchanged, subscribe-serves, unsubscribe-serves-none, subscribe-after_end,
}
use effect_ive_go.Registry.Deliver.{
  Channel, pass_message, copies, all_chosen, pass_message-copies, arbit,
}

abbrev first : SinkDropPair
first = record { sink = 1; dropped = some 11 }

abbrev second : SinkDropPair
second = record { sink = 2; dropped = some 12 }

-- The source 7 has two subscriptions.
abbrev table : ℕ → Option Stored
table key = elim (ℕ_discrete 7 key) [
  | yes e ↦ some (registered_list 0 (first ∷ second ∷ []))
  | no ne ↦ none
]

abbrev reg : Registry
reg = record { entries = table; next_address = 1; arbiters = 7 ∷ [] }

at_seven : table 7 ≡ some (registered_list 0 (first ∷ second ∷ []))
unfolding ℕ_discrete
at_seven = refl

served_seven : serves (table 7) ≡ some (first ∷ second ∷ [])
unfolding ℕ_discrete
served_seven = refl

subscribe-serves_example :
    (reg' : Registry) × (subscribe false 7 (some 3) (some 13) reg ≡ ret (none, reg'))
    × (serves (reg'.entries 7)
        ≡ some ((first ∷ second ∷ []) ++ record { sink = 3; dropped = some 13 } ∷ []))
    × Unchanged 7 reg reg'
    × (reg'.arbiters ≡ started_for (reg.entries 7) 7 reg.arbiters)
subscribe-serves_example = subscribe-serves 7 3 13 (first ∷ second ∷ []) reg served_seven

without_first : without_sink 1 (first ∷ second ∷ []) ≡ some (second ∷ [])
unfolding without_sink
without_first = refl

unsubscribe-serves-none_example :
    (reg' : Registry) × (unsubscribe false 7 1 reg ≡ ret (none, reg'))
    × (serves (reg'.entries 7) ≡ none)
    × Unchanged 7 reg reg'
    × ((late dropped : ℕ) → subscribe false 7 (some late) (some dropped) reg' ≡ ret (none, reg'))
unsubscribe-serves-none_example =
    unsubscribe-serves-none 7 1 0 (first ∷ second ∷ []) (second ∷ []) reg at_seven without_first

subscribe-after_end_example :
    (reg' : Registry) × (subscribe true 7 (some 3) (some 13) reg
      ≡ ret (some (max_attempts 5 fail_to_cas), reg'))
    × (reg'.entries 7 ≡ none)
    × (reg'.arbiters ≡ reg.arbiters)
subscribe-after_end_example = subscribe-after_end 7 3 13 0 (first ∷ second ∷ []) reg at_seven

-- Every channel has room for four messages.
abbrev channels : ℕ → Channel ℕ
channels c = record { room = 4; sent = []; closed = false }

-- The first pair's `select` takes the dropped channel.
abbrev picks : ℕ → Bool
picks zero = true
picks (suc n) = false

pass_message-copies_example :
    (after : ℕ → Channel ℕ) × (pass_message picks (some (0, first ∷ second ∷ [])) 5 channels
      ≡ ret after)
    × ((c : ℕ)
        → (after c).sent
          ≡ (channels c).sent ++ copies 5 c (all_chosen picks 0 (first ∷ second ∷ [])))
pass_message-copies_example =
    pass_message-copies picks 0 (first ∷ second ∷ []) 5 channels (λ c. (refl, omega arith))

dropped_with_room : copies {T = ℕ} 5 1 (all_chosen picks 0 (first ∷ second ∷ [])) ≡ []
unfolding copies all_chosen
dropped_with_room = refl

-- A source that is closed before any message leaves its sinks open and its entry in the registry.
silent_source : arbit {T = ℕ} 7 [] none reg channels ≡ ret (reg, channels)
unfolding arbit
silent_source = refl
