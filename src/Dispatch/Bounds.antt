-- ===== src/Dispatch/Bounds.antt =====
-- The index of a channel, and the capacity of the channels (effects/internal/handlers).
use effect_ive_go.Base.{
  ℕ, zero, suc, ◌%◌, ◌≤◌, ◌<◌, ◌≡◌, refl, ap, ◌∙◌, ◌⊎◌, inl, inr, true, false, Option, none, some,
  [], ◌∷◌, arith, length, get_elem?, set, length-append, length-set, get_elem?-set,
}
use effect_ive_go.Dispatch.{
  get_index_by_hash, Worker, Dispatcher, idle, start_workers, new_partitioned_queue, Reach, here,
  next, Step, perform, receive, finish, cancel, exit, Perform, buffer, hand_over, caller_done,
  closed_channel, no_channel, Sent,
}

-- With no channel `getIndexByHash` panics; with any other number it gives the index of a channel,
-- and the same one for equal partition keys.
pub get_index_by_hash-bounded {ℓ} :
    {P : Type ℓ} (hash : P → ℕ) (key : P) (n : ℕ)
    → ((n ≡ 0) × (get_index_by_hash hash key n ≡ none))
      ⊎ ((i : ℕ) × (get_index_by_hash hash key n ≡ some i) × (i < n))
unfolding get_index_by_hash
get_index_by_hash-bounded hash key zero = inl (refl, refl)
get_index_by_hash-bounded hash key (suc zero) = inr (0, refl, omega arith)
get_index_by_hash-bounded hash key (suc (suc n)) = inr (hash key % suc (suc n), refl, omega arith)

length-start_workers : (T : Type 0) (n : ℕ) → length (start_workers {T = T} n) ≡ n
unfolding start_workers
length-start_workers T zero = refl
length-start_workers T (suc n) = ap suc (length-start_workers T n)

module _ {T : Type 0} where
  -- No buffer holds more than its capacity, which is fixed, as is the number of workers; and a
  -- worker has ended only after the handler's context did.
  pub record IsBounded (n size : ℕ) (d : Dispatcher T) : Type 0 where
    pub fits : (i : ℕ) (w : Worker T) → get_elem? d.workers i ≡ some w → length w.queued ≤ size
    pub ended :
        (i : ℕ) (w : Worker T)
        → get_elem? d.workers i ≡ some w
        → (w.exited ≡ false) ⊎ (d.cancelled ≡ true)
    pub capacity : d.buffer_size ≡ size
    pub count : length d.workers ≡ n

  put-IsBounded :
      (n size i : ℕ) (d e : Dispatcher T) (w : Worker T)
      → IsBounded n size d
      → length w.queued ≤ size
      → (w.exited ≡ false) ⊎ (d.cancelled ≡ true)
      → e.workers ≡ set d.workers i w
      → e.buffer_size ≡ d.buffer_size
      → e.cancelled ≡ d.cancelled
      → IsBounded n size e
  put-IsBounded n size i d e w b le alive ws s c = record {
    fits = λ j u g. elim (get_elem?-set d.workers i j w u (rw (← ws) g)) [
      | inl (same, is_w) ↦ rw is_w le
      | inr (other, old) ↦ b.fits j u old
    ];
    ended = λ j u g. elim (get_elem?-set d.workers i j w u (rw (← ws) g)) [
      | inl (same, is_w) ↦ rw (is_w, c) alive
      | inr (other, old) ↦ rw c (b.ended j u old)
    ];
    capacity = s ∙ b.capacity;
    count = rw ws (length-set d.workers i w) ∙ b.count;
  }

  pub idle-of : (n i : ℕ) (w : Worker T) → get_elem? (start_workers n) i ≡ some w → w ≡ idle
  unfolding start_workers
  idle-of zero i w e = cc e
  idle-of (suc n) zero w e = cc e
  idle-of (suc n) (suc i) w e = idle-of n i w e

  fresh-IsBounded : (n size : ℕ) → IsBounded n size (new_partitioned_queue {T = T} n size)
  unfolding new_partitioned_queue
  fresh-IsBounded n size = record {
    fits = λ i w e. rw (idle-of n i w e) (omega arith);
    ended = λ i w e. rw (idle-of n i w e) (inl refl);
    capacity = refl;
    count = length-start_workers T n;
  }

  module _ (route : T → Option ℕ) where
    Perform-IsBounded :
        (n size : ℕ) {m : T} {s : Sent} {d e : Dispatcher T}
        → Perform route m d s e
        → IsBounded n size d
        → IsBounded n size e
    Perform-IsBounded n size {m = m} {d = d} (buffer i w r e o room) b =
        put-IsBounded n size i d _ _ b (omega (arith, length-append w.queued (m ∷ []), b.capacity))
          (inl o) refl refl refl
    Perform-IsBounded n size {d = d} (hand_over i w r e o q h) b =
        put-IsBounded n size i d _ _ b (b.fits i w e) (inl o) refl refl refl
    Perform-IsBounded n size (caller_done i r) b = b
    Perform-IsBounded n size (closed_channel i w r e x) b = b
    Perform-IsBounded n size (no_channel r) b = b

    Step-IsBounded :
        (n size : ℕ) {d e : Dispatcher T} → Step route d e → IsBounded n size d → IsBounded n size e
    Step-IsBounded n size (perform m r p) b = Perform-IsBounded n size p b
    Step-IsBounded n size {d = d} (receive i w m ms e o h q) b =
        put-IsBounded n size i d _ _ b (omega (arith, b.fits i w e, ap length q)) (inl o) refl refl
          refl
    Step-IsBounded n size {d = d} (finish i w m e h) b =
        put-IsBounded n size i d _ _ b (b.fits i w e) (b.ended i w e) refl refl refl
    Step-IsBounded n size cancel b = record {
      fits = b.fits;
      ended = λ i w e. inr refl;
      capacity = b.capacity;
      count = b.count;
    }
    Step-IsBounded n size {d = d} (exit i w e c o h) b =
        put-IsBounded n size i d _ _ b (b.fits i w e) (inr c) refl refl refl

    Reach-IsBounded :
        (n size : ℕ) {d : Dispatcher T}
        → Reach route (new_partitioned_queue n size) d
        → IsBounded n size d
    Reach-IsBounded n size here = fresh-IsBounded n size
    Reach-IsBounded n size (next r s) = Step-IsBounded n size s (Reach-IsBounded n size r)

    -- Whatever the callers, the workers and the context do after `NewPartitionedQueue`, there are
    -- as many workers as it made, none of their buffers holds more than `bufferSize` messages, and
    -- a worker has ended only if the handler's context was cancelled.
    pub Reach-bounded :
        (n size : ℕ) (d : Dispatcher T) (i : ℕ) (w : Worker T)
        → Reach route (new_partitioned_queue n size) d
        → get_elem? d.workers i ≡ some w
        → (length w.queued ≤ size)
          × ((w.exited ≡ false) ⊎ (d.cancelled ≡ true))
          × (length d.workers ≡ n)
    Reach-bounded n size d i w r e =
        let b = Reach-IsBounded n size r in (b.fits i w e, b.ended i w e, b.count)
