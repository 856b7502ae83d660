-- ===== src/Combinators.antt =====
-- effects/stream/stream.go: the goroutines of the stream combinators `MapEffect`, `PipeEffect`,
-- `EagerFilterEffect`, `LazyFilterEffect` and `MergeEffect`.
--
-- A source is the sequence of the values that it gives until it closes or, if it does not close,
-- until it blocks its reader for ever. The receiver of the sink and the context are the
-- environment, which answers each `select`, in turn, by one of its cases. A child that has ended
-- has run its deferred calls; one that has not is blocked on its source.
pub mod Pipeline
pub mod Merge
pub mod Lazy
mod Tests
use effect_ive_go.Base.{
  ℕ, zero, suc, ◌+◌, Bool, true, false, Option, none, some, List, [], ◌∷◌, ◌++◌, if◌then◌else◌,
}

-- The case that a `select` between the sink and the context takes.
pub data Pick : Type 0 where
  taken : Pick
  context_done : Pick

-- What a child did: the values that the sink took, those of the source that the child did not
-- receive, and whether the sink was closed.
pub record Relayed (T R : Type 0) : Type 0 where
  pub sent : List R
  pub unread : List T
  pub sink_closed : Bool

-- The `n`th select of a child takes `picks n`.
abbrev pub Picks : Type 0
Picks = ℕ → Pick

abbrev pub later : Picks → Picks
later picks n = picks (suc n)

-- A send, and then the rest of the loop; or the return, with the deferred close of the sink.
abbrev pub sent_then : {T R : Type 0} → R → List T → Pick → Relayed T R → Relayed T R
sent_then v source taken rest = record rest { sent = v ∷ rest.sent }
sent_then v source context_done rest = record { sent = []; unread = source; sink_closed = true }

module _ {T R : Type 0} where
  -- `MapEffect`'s child; `closes` tells whether the source closes after its values.
  unfoldable pub map_effect : (T → R) → Bool → List T → Picks → Relayed T R
  map_effect map_fn closes [] picks = record { sent = []; unread = []; sink_closed = closes }
  map_effect map_fn closes (v ∷ source) picks =
      sent_then (map_fn v) source (picks 0) (map_effect map_fn closes source (later picks))

module _ {T : Type 0} where
  -- `PipeEffect`'s child.
  unfoldable pub pipe_effect : Bool → List T → Picks → Relayed T T
  pipe_effect closes [] picks = record { sent = []; unread = []; sink_closed = closes }
  pipe_effect closes (v ∷ source) picks =
      sent_then v source (picks 0) (pipe_effect closes source (later picks))

  -- `EagerFilterEffect`'s child.
  unfoldable pub eager_filter_effect : (T → Bool) → Bool → List T → Picks → Relayed T T
  eager_filter_effect predicate closes [] picks = record {
    sent = [];
    unread = [];
    sink_closed = closes;
  }
  eager_filter_effect predicate closes (v ∷ source) picks =
      let skipped = eager_filter_effect predicate closes source picks in
      let passed = eager_filter_effect predicate closes source (later picks) in
      if predicate v then sent_then v source (picks 0) passed else skipped

-- The case that `pollToProduce`'s select takes, which has a default.
pub data TryPick : Type 0 where
  sent_now : TryPick
  saw_done : TryPick
  not_ready : TryPick

-- What `pollToProduce` did with a value: it returned, having sent the value or not, after so many
-- calls of the predicate, and with the selects that are left to later values; or it goes on
-- polling.
pub data Polled : Type 0 where
  returned : Bool → ℕ → List TryPick → Polled
  polling : Polled

-- What follows a select that `pollToProduce` comes to.
abbrev pub after_try : ℕ → List TryPick → TryPick → Polled → Polled
after_try calls picks sent_now again = returned true calls picks
after_try calls picks saw_done again = returned false calls picks
after_try calls picks not_ready again = again

module _ {T : Type 0} (predicate : ℕ → T → Bool) where
  -- `pollToProduce`; the predicate may change with time, so it has the number of its calls.
  unfoldable pub poll_to_produce : ℕ → T → List TryPick → Polled
  poll_to_produce calls v [] = if predicate calls v then polling else returned false (calls + 1) []
  poll_to_produce calls v (pick ∷ picks) =
      let again = poll_to_produce (calls + 1) v picks in
      if predicate calls v
      then after_try (calls + 1) picks pick again
      else returned false (calls + 1) (pick ∷ picks)

  -- `LazyFilterEffect`'s child, which returns only when its source closes.
  unfoldable pub lazy_filter_effect : Bool → ℕ → List T → List TryPick → Relayed T T
  unfolding poll_to_produce
  lazy_filter_effect closes calls [] picks = record { sent = []; unread = []; sink_closed = closes }
  lazy_filter_effect closes calls (v ∷ source) picks = elim (poll_to_produce calls v picks) [
    | returned true calls' rest ↦
        let after = lazy_filter_effect closes calls' source rest in
        record after { sent = v ∷ after.sent }
    | returned false calls' rest ↦ lazy_filter_effect closes calls' source rest
    | polling ↦ record { sent = []; unread = source; sink_closed = false }
  ]
