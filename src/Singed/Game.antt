-- ===== src/Singed/Game.antt =====
-- examples/singed_poison_trail, as main.go puts it together: an actor subscribes to the ticks when
-- it is made, and unsubscribes when it is closed.
--
-- The stream handler's registry is that of Registry. `closed_channels` are the channels that were
-- closed.
mod Tests
use effect_ive_go.Base.{ℕ, Bool, true, false, Option, none, some, List, [], ◌∷◌}
use effect_ive_go.Helper.{Outcome, ret, ◌>>=◌}
use effect_ive_go.Registry.{
  Registry, with_effect_handler, subscribe_effect, unsubscribe_effect, end_of_stream_handler,
}
use effect_ive_go.Singed.{Actor, new_actor, close, Singed, singed_move}

-- The channels of an actor: the ticks, its own channel, and that for dropped ticks.
pub record Channels : Type 0 where
  pub tick_source : ℕ
  pub tick_ch : ℕ
  pub dropped_tick : ℕ

pub record Streams : Type 0 where
  pub registry : Registry
  pub closed_channels : List ℕ

-- `NewActor`, up to the start of its child.
unfoldable pub new_subscribed_actor : Channels → Streams → Outcome (Actor Unit × Streams)
unfolding subscribe_effect new_actor
new_subscribed_actor c w =
    subscribe_effect false c.tick_source (some c.tick_ch) (some c.dropped_tick) w.registry
    >>= λ reg. ret (new_actor, record w { registry = reg })

-- `closeFn`.
unfoldable pub close_fn : Channels → Streams → Outcome Streams
unfolding unsubscribe_effect
close_fn c w = unsubscribe_effect false c.tick_source c.tick_ch w.registry >>= λ reg.
    ret (record { registry = reg; closed_channels = c.tick_ch ∷ w.closed_channels })

-- What `Actor.Close` does, by whether its compare-and-swap succeeds.
abbrev pub close_if : Bool → Channels → Actor Unit → Streams → Outcome (Actor Unit × Streams)
close_if false c actor w = ret (actor, w)
close_if true c actor w = close_fn c w >>= λ w'. ret (actor, w')

unfoldable pub close_actor : Channels → Actor Unit → Streams → Outcome (Actor Unit × Streams)
unfolding close close_fn
close_actor c actor w = let r = close actor in close_if r.0 c r.1 w

-- `NewSinged`.
unfoldable pub new_subscribed_singed : Channels → Streams → Outcome (Singed × Streams)
unfolding new_subscribed_actor
new_subscribed_singed c w =
    new_subscribed_actor c w >>= λ r. ret (record { actor = r.0; poison_trail = false }, r.1)

-- `main`, in a context with a concurrency handler, which it makes first: it ends without a wait for
-- the move, and its deferred calls close the actor and end the stream handler.
unfoldable pub main : Option ℕ → Channels → Outcome (Singed × Streams)
unfolding with_effect_handler new_subscribed_singed singed_move close_actor end_of_stream_handler
main concurrency_handler c = with_effect_handler concurrency_handler >>= λ reg.
    new_subscribed_singed c (record { registry = reg; closed_channels = [] }) >>= λ r.
    singed_move 10 1 r.0 >>= λ singed. close_actor c singed.actor r.1 >>= λ q.
    ret
      (record singed { actor = q.0 }, record q.1 { registry = end_of_stream_handler q.1.registry })
