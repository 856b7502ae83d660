-- ===== src/Lease.antt =====
-- effects/lease: resources with a limited number of owners, as channels that the state effect
-- stores.
--
-- The state effect is a record of operations, `StateEffects`, which Lease/OverState fills with the
-- effect functions of State. A pair of channels is stored by its address; the channels hold the
-- times of the leases. The goroutine of `LazyFilterEffect`, which drops expired leases, is left
-- out.
pub mod Semaphore
pub mod Expiring
pub mod Lifecycle
pub mod OverState
mod Payloads
mod Tests
use effect_ive_go.Base.{
  ℕ, zero, suc, ◌+◌, ◌<◌, ◌≡◌, Bool, true, false, Option, none, some, List, [], ◌∷◌, ◌++◌, ◌==◌,
  if◌then◌else◌, ltb, length, ite, ℕ_discrete,
}
use effect_ive_go.Helper.{Outcome, ret, missing, fault, ◌>>=◌, Err, wrapped, Typed, ok, failed}

-- What a lease needs of the state effect: `LoadEffect`, `InsertIfAbsentEffect` and
-- `CompareAndDeleteEffect`, on the addresses of pairs.
pub record StateEffects (K S : Type 0) : Type 0 where
  pub load_pair : K → S → Outcome (Typed ℕ × S)
  pub insert_pair : K → ℕ → S → Outcome (Typed Bool × S)
  pub delete_pair : K → ℕ → S → Outcome (Typed Bool × S)

pub record Channel : Type 0 where
  pub capacity : ℕ
  pub times : List ℕ
  pub closed : Bool

pub record SourceSinkPair : Type 0 where
  pub source : ℕ
  pub sink : ℕ

pub record Heap : Type 0 where
  pub pairs : ℕ → SourceSinkPair
  pub channels : ℕ → Channel
  pub next_pair : ℕ
  pub next_channel : ℕ

-- The errors of this package beside those of the state effect.
pub data Denied : Type 0 where
  unregistered_resource : Denied
  resource_in_use : Denied
  context_done : Denied
  state_failed : Err → Denied

pub data Answer : Type 0 where
  done : Bool → Answer
  denied : Denied → Answer
  blocks : Answer  -- the call waits, with no case of its `select` ready

abbrev pub set_at {ℓ} : {A : Type ℓ} → ℕ → A → (ℕ → A) → ℕ → A
set_at i a f q = ite (ℕ_discrete i q) a (f q)

abbrev pub set_channel : ℕ → Channel → Heap → Heap
set_channel i c heap = record heap { channels = set_at i c heap.channels }

abbrev pub make_channel : ℕ → Channel
make_channel capacity = record { capacity = capacity; times = []; closed = false }

-- `newBypassPair`: one channel for both ends.
unfoldable pub new_bypass_pair : ℕ → Heap → ℕ × Heap
new_bypass_pair num_owners heap = (
  heap.next_pair,
  record heap {
    pairs =
        set_at heap.next_pair (record { source = heap.next_channel; sink = heap.next_channel })
          heap.pairs;
    channels = set_at heap.next_channel (make_channel num_owners) heap.channels;
    next_pair = heap.next_pair + 1;
    next_channel = heap.next_channel + 1;
  },
)

-- The rest of `GetTypedValueOf[bool]` on a typed result.
abbrev pub typed_answer : Typed Bool → Answer
typed_answer (ok b) = done b
typed_answer (failed e) = denied (state_failed (wrapped e))

-- An error of `CompareAndDeleteEffect` is passed on as it is.
abbrev pub plain_answer : Typed Bool → Answer
plain_answer (ok b) = done b
plain_answer (failed e) = denied (state_failed e)

-- The `select` of `AcquisitionEffect`: `gives_up` says that it takes the case of the caller's
-- context. A send to a closed channel panics.
unfoldable pub acquire_at : Bool → ℕ → ℕ → Heap → Outcome (Answer × Heap)
acquire_at true now c heap = ret (denied context_done, heap)
acquire_at false now c heap =
    let ch = heap.channels c in
    if ch.closed
    then fault
    else (if ltb (length ch.times) ch.capacity
        then ret (done true, set_channel c (record ch { times = ch.times ++ now ∷ [] }) heap)
        else ret (blocks, heap))

-- The receive, from a buffer that holds something; the `default` case answers true as well.
unfoldable pub release_at : List ℕ → ℕ → Heap → Answer × Heap
release_at [] c heap = (done true, heap)
release_at (t ∷ ts) c heap =
    (done true, set_channel c (record (heap.channels c) { times = ts }) heap)

-- `close(peekable.source)` after a deletion.
unfoldable pub close_source : Typed Bool → ℕ → Heap → Outcome (Answer × Heap)
close_source (ok true) c heap =
    if (heap.channels c).closed
    then fault
    else ret (done true, set_channel c (record (heap.channels c) { closed = true }) heap)
close_source (ok false) c heap = ret (done false, heap)
close_source (failed e) c heap = ret (plain_answer (failed e), heap)

module _ {K S : Type 0} (ops : StateEffects K S) where
  -- `ResourceRegistrationNoExpiryEffect`.
  unfoldable pub registration_no_expiry : K → ℕ → S × Heap → Outcome (Answer × S × Heap)
  unfolding new_bypass_pair
  registration_no_expiry key num_owners (s, heap) =
      let (pair, heap') = new_bypass_pair num_owners heap in
      ops.insert_pair key pair s >>= λ r. ret (typed_answer r.0, r.1, heap')

  unfoldable pub acquire_loaded : Bool → ℕ → Typed ℕ → S → Heap → Outcome (Answer × S × Heap)
  unfolding acquire_at
  acquire_loaded gives_up now (failed e) s heap = ret (denied unregistered_resource, s, heap)
  acquire_loaded gives_up now (ok pair) s heap =
      acquire_at gives_up now (heap.pairs pair).source heap >>= λ r. ret (r.0, s, r.1)

  -- `AcquisitionEffect`.
  unfoldable pub acquisition : Bool → ℕ → K → S × Heap → Outcome (Answer × S × Heap)
  unfolding acquire_loaded
  acquisition gives_up now key (s, heap) =
      ops.load_pair key s >>= λ r. acquire_loaded gives_up now r.0 r.1 heap

  unfoldable pub release_loaded : Typed ℕ → S → Heap → Outcome (Answer × S × Heap)
  unfolding release_at
  release_loaded (failed e) s heap = ret (denied unregistered_resource, s, heap)
  release_loaded (ok pair) s heap =
      let r = release_at (heap.channels (heap.pairs pair).sink).times (heap.pairs pair).sink heap in
      ret (r.0, s, r.1)

  -- `ReleaseEffect`, in a context that lives.
  unfoldable pub release : K → S × Heap → Outcome (Answer × S × Heap)
  unfolding release_loaded
  release key (s, heap) = ops.load_pair key s >>= λ r. release_loaded r.0 r.1 heap

  unfoldable pub deregister_loaded : K → Typed ℕ → S → Heap → Outcome (Answer × S × Heap)
  unfolding close_source
  deregister_loaded key (failed e) s heap = ret (denied unregistered_resource, s, heap)
  deregister_loaded key (ok pair) s heap =
      let c = (heap.pairs pair).source in
      if ltb 0 (length (heap.channels c).times)
      then ret (denied resource_in_use, s, heap)
      else (ops.delete_pair key pair s >>= λ r.
          close_source r.0 c heap >>= λ q. ret (q.0, r.1, q.1))

  -- `ResourceDeregistrationEffect`.
  unfoldable pub deregistration : K → S × Heap → Outcome (Answer × S × Heap)
  unfolding deregister_loaded
  deregistration key (s, heap) = ops.load_pair key s >>= λ r. deregister_loaded key r.0 r.1 heap
