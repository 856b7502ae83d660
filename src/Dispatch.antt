-- ===== src/Dispatch.antt =====
-- effects/internal/handlers: how an effect handler's workers take the payloads that are sent to it.
--
-- `SingleQueue` and `PartitionedQueue` differ in `GetChannelOf` alone, which is the parameter
-- `route` here; the goroutines of their workers are alike. `accepted` and `handled` are histories:
-- the messages that a channel took, and those that `handleFn` finished.
pub mod Order
pub mod Bounds
pub mod Drain
pub mod Resume
mod Tests
use effect_ive_go.Base.{
  ℕ, zero, suc, ◌+◌, ◌%◌, ◌<◌, ◌≡◌, Bool, true, false, Option, none, some, List, [], ◌∷◌, ◌++◌,
  length, get_elem?, set,
}

-- `getIndexByHash`, on the hash of the partition key; without channels it panics.
unfoldable pub get_index_by_hash {ℓ} : {P : Type ℓ} → (P → ℕ) → P → ℕ → Option ℕ
get_index_by_hash hash key zero = none
get_index_by_hash hash key (suc zero) = some 0
get_index_by_hash hash key (suc (suc n)) = some (hash key % suc (suc n))

-- A worker's channel, and its goroutine: the messages in the buffer, the message that `handleFn`
-- is at, and whether the goroutine has ended, which closes the channel.
pub record Worker (T : Type 0) : Type 0 where
  pub queued : List T
  pub handling : Option T
  pub exited : Bool

pub record Dispatcher (T : Type 0) : Type 0 where
  pub buffer_size : ℕ
  pub workers : List (Worker T)
  pub cancelled : Bool
  pub accepted : List T
  pub handled : List T

-- What becomes of `FireAndForgetEffect`: the message is taken, or the caller's context ends first,
-- or it panics, which it recovers from.
pub data Sent : Type 0 where
  sent : Sent
  gave_up : Sent
  recovered : Sent

module _ {T : Type 0} where
  abbrev pub idle : Worker T
  idle = record { queued = []; handling = none; exited = false }

  unfoldable pub start_workers : ℕ → List (Worker T)
  start_workers zero = []
  start_workers (suc n) = idle ∷ start_workers n

  -- `NewPartitionedQueue`; `NewSingleQueue` is the one with a single worker.
  unfoldable pub new_partitioned_queue : ℕ → ℕ → Dispatcher T
  unfolding start_workers
  new_partitioned_queue num_workers buffer_size = record {
    buffer_size = buffer_size;
    workers = start_workers num_workers;
    cancelled = false;
    accepted = [];
    handled = [];
  }

  unfoldable pub new_single_queue : ℕ → Dispatcher T
  unfolding new_partitioned_queue
  new_single_queue buffer_size = new_partitioned_queue 1 buffer_size

  abbrev pub put : ℕ → Worker T → Dispatcher T → Dispatcher T
  put i w d = record d { workers = set d.workers i w }

  abbrev pub accept : T → Dispatcher T → Dispatcher T
  accept m d = record d { accepted = d.accepted ++ m ∷ [] }

  abbrev pub finish_one : T → Dispatcher T → Dispatcher T
  finish_one m d = record d { handled = d.handled ++ m ∷ [] }

-- `GetChannelOf` of the single queue and of the partitioned one.
unfoldable pub single_channel : {T : Type 0} → T → Option ℕ
single_channel m = some 0

unfoldable pub partitioned_channel {ℓ} :
    {P : Type ℓ} {T : Type 0} → (P → ℕ) → (T → P) → ℕ → T → Option ℕ
unfolding get_index_by_hash
partitioned_channel hash partition_key num_channels m =
    get_index_by_hash hash (partition_key m) num_channels

module _ {T : Type 0} (route : T → Option ℕ) where
  -- The ways `FireAndForgetEffect` ends, and `PerformEffect`'s select: a channel takes a message
  -- into its buffer, or a worker that waits for one takes it at once.
  pub data Perform (m : T) (d : Dispatcher T) : Sent → Dispatcher T → Type 0 where
    buffer :
        (i : ℕ) (w : Worker T)
        → route m ≡ some i
        → get_elem? d.workers i ≡ some w
        → w.exited ≡ false
        → length w.queued < d.buffer_size
        → Perform m d sent (accept m (put i (record w { queued = w.queued ++ m ∷ [] }) d))
    hand_over :
        (i : ℕ) (w : Worker T)
        → route m ≡ some i
        → get_elem? d.workers i ≡ some w
        → w.exited ≡ false
        → w.queued ≡ []
        → w.handling ≡ none
        → Perform m d sent (accept m (put i (record w { handling = some m }) d))
    caller_done : (i : ℕ) → route m ≡ some i → Perform m d gave_up d
    closed_channel :
        (i : ℕ) (w : Worker T)
        → route m ≡ some i
        → get_elem? d.workers i ≡ some w
        → w.exited ≡ true
        → Perform m d recovered d
    no_channel : route m ≡ none → Perform m d recovered d

  -- One step of the callers, of a worker, or of the end of the handler's context.
  pub data Step (d : Dispatcher T) : Dispatcher T → Type 0 where
    perform : (m : T) (r : Sent) {e : Dispatcher T} → Perform m d r e → Step d e
    receive :
        (i : ℕ) (w : Worker T) (m : T) (ms : List T)
        → get_elem? d.workers i ≡ some w
        → w.exited ≡ false
        → w.handling ≡ none
        → w.queued ≡ m ∷ ms
        → Step d (put i (record w { queued = ms; handling = some m }) d)
    finish :
        (i : ℕ) (w : Worker T) (m : T)
        → get_elem? d.workers i ≡ some w
        → w.handling ≡ some m
        → Step d (finish_one m (put i (record w { handling = none }) d))
    cancel : Step d (record d { cancelled = true })
    exit :
        (i : ℕ) (w : Worker T)
        → get_elem? d.workers i ≡ some w
        → d.cancelled ≡ true
        → w.exited ≡ false
        → w.handling ≡ none
        → Step d (put i (record w { exited = true }) d)

  pub data Reach (d : Dispatcher T) : Dispatcher T → Type 0 where
    here : Reach d d
    next : {e f : Dispatcher T} → Reach d e → Step e f → Reach d f
