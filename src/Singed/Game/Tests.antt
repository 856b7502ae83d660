-- ===== src/Singed/Game/Tests.antt =====
-- The example game's `main`, and an actor that is closed twice.
use effect_ive_go.Base.{◌≡◌, refl, true, none, some, [], ◌∷◌, ℕ_discrete}
use effect_ive_go.Helper.{ret, ◌>>=◌}
use effect_ive_go.Registry.{bare_slice, unsubscribe_at, swap_at}
use effect_ive_go.Singed.{move}
use effect_ive_go.Singed.Game.{Channels, Streams, new_subscribed_actor, close_actor, main}

abbrev channels : Channels
channels = record { tick_source = 1; tick_ch = 2; dropped_tick = 3 }

abbrev no_streams : Streams
no_streams = record {
  registry = record { entries = λ key. none; next_address = 0; arbiters = [] };
  closed_channels = [];
}

-- The move is left with the actor, at its first coordinate.
left_over :
    (main (some 0) channels >>= λ r. ret r.0.actor)
    ≡ ret (record { coordinate = 0; jobs = move 10 1 (some tt) ∷ []; closed = true })
unfolding main ℕ_discrete unsubscribe_at swap_at
left_over = refl

-- The second close does nothing.
closed_twice :
    (new_subscribed_actor channels no_streams >>= λ r. close_actor channels r.0 r.1 >>= λ q.
    close_actor channels q.0 q.1 >>= λ t. ret t.1.closed_channels)
    ≡ ret (2 ∷ [])
unfolding new_subscribed_actor close_actor ℕ_discrete unsubscribe_at swap_at
closed_twice = refl

-- The source has no sink after a close.
no_sink :
    (new_subscribed_actor channels no_streams >>= λ r.
    close_actor channels r.0 r.1 >>= λ q. ret (q.1.registry.entries 1))
    ≡ ret (some (bare_slice []))
unfolding new_subscribed_actor close_actor ℕ_discrete unsubscribe_at swap_at
no_sink = refl
