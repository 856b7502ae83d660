-- ===== src/OrderedBuffer.antt =====
-- shared/orderedbuffer/ordered_buffer.go: `OrderedBoundedBuffer`. The comparison's `int` is read by
-- its sign alone, so it is an `Ordering`. `data` is the slice; `sent` is the history of the channel
-- `sink`, and `sink_closed` says whether `close(b.sink)` has run.
pub mod Search
pub mod Order
pub mod Window
pub mod Stream
pub mod Drops
mod Tests
use effect_ive_go.Base.{
  ℕ, zero, suc, ◌+◌, ◌/◌, Bool, true, false, not, Option, none, some, List, [], ◌∷◌, ◌++◌, Ordering,
  length, get_elem?, set, take, drop, ltb, leb, if◌then◌else◌,
}

pub record Buffer {ℓ} (T : Type ℓ) : Type ℓ where
  pub contents : List T
  pub max_buf_len : ℕ
  pub sent : List T
  pub closed : Bool
  pub sink_closed : Bool

abbrev pub Compare {ℓ} : Type ℓ → Type ℓ
Compare T = T → T → Ordering

abbrev pub is_lt : Ordering → Bool
is_lt Ordering.lt = true
is_lt _ = false

-- The loop of the standard library's `sort.Search`, on fuel.
unfoldable pub search_loop : ℕ → (ℕ → Bool) → ℕ → ℕ → ℕ
search_loop zero f i j = i
search_loop (suc fuel) f i j =
    let h : ℕ = (i + j) / 2 in
    let right = search_loop fuel f (h + 1) j in
    let left = search_loop fuel f i h in if ltb i j then (if not (f h) then right else left) else i

-- `sort.Search(n, f)`: `n` rounds are enough.
unfoldable pub search : ℕ → (ℕ → Bool) → ℕ
unfolding search_loop
search n f = search_loop n f 0 n

module _ {ℓ} {T : Type ℓ} where
  unfoldable pub new_ordered_bounded_buffer : ℕ → Buffer T
  new_ordered_bounded_buffer n = record {
    contents = [];
    max_buf_len = n;
    sent = [];
    closed = false;
    sink_closed = false;
  }

  -- `copy(b.data[idx+1:], b.data[idx:])`: as many elements as the destination has.
  unfoldable pub shift_right : ℕ → List T → List T
  shift_right idx xs = take (idx + 1) xs ++ take (length (drop (idx + 1) xs)) (drop idx xs)

  -- append, copy, and the write at `idx`
  unfoldable pub insert_at : ℕ → T → List T → List T
  unfolding shift_right
  insert_at idx val xs = set (shift_right idx (xs ++ val ∷ [])) idx val

  -- `b.compare(val, b.data[i]) < 0`; an index out of range never arises below `len(b.data)`.
  unfoldable pub goes_before : Compare T → T → List T → ℕ → Bool
  goes_before cmp val xs i = elim (get_elem? xs i) [ some x ↦ is_lt (cmp val x) | none ↦ true ]

  -- The eviction of the head: what leaves, and what stays.
  unfoldable pub evict : ℕ → List T → Option T × List T
  evict max [] = (none, [])
  evict max (x ∷ xs) = if ltb max (suc (length xs)) then (some x, xs) else (none, x ∷ xs)

  -- `select { case <-ctx.Done(): case b.sink <- v: }`: `done` says which case is taken.
  abbrev pub send : Bool → Option T → List T → List T
  send done none sent = sent
  send true (some v) sent = sent
  send false (some v) sent = sent ++ v ∷ []

  unfoldable pub insert : Compare T → Bool → T → Buffer T → Bool × Buffer T
  unfolding search goes_before insert_at evict
  insert cmp done val b =
      if b.closed
      then (false, b)
      else let idx = search (length b.contents) (goes_before cmp val b.contents) in
        let (evicted, kept) = evict b.max_buf_len (insert_at idx val b.contents) in
        (true, record b { contents = kept; sent = send done evicted b.sent })

  -- The goroutine of `Close`: it sends the elements in order and closes the sink, unless the
  -- context ends before the element at `stop`.
  unfoldable pub flush : Option ℕ → Buffer T → Buffer T
  flush none b = record b { sent = b.sent ++ b.contents; sink_closed = true }
  flush (some stop) b = record b {
    sent = b.sent ++ take stop b.contents;
    sink_closed = leb (length b.contents) stop;
  }

  -- A second `Close` returns at once.
  unfoldable pub close : Option ℕ → Buffer T → Buffer T
  unfolding flush
  close stop b = if b.closed then b else flush stop (record b { closed = true })

  -- A channel's elements inserted one by one; `dones` says of each insertion's select whether it
  -- takes the case of the context.
  unfoldable pub insert_all : Compare T → (ℕ → Bool) → List T → Buffer T → Buffer T
  unfolding insert
  insert_all cmp dones [] b = b
  insert_all cmp dones (v ∷ vs) b =
      insert_all cmp (λ i. dones (suc i)) vs (insert cmp (dones 0) v b).1

  -- The goroutine of `OrderByEffect` that passes the buffer's elements on to the sink.
  unfoldable pub forward : (ℕ → Bool) → List T → List T
  forward dones [] = []
  forward dones (v ∷ vs) =
      let rest = forward (λ i. dones (suc i)) vs in if dones 0 then rest else v ∷ rest

-- Where the selects of `OrderByEffect` take the case of the context: those of the insertions, of
-- `Close`, and of the goroutine that passes on.
pub record Selects : Type 0 where
  pub inserts : ℕ → Bool
  pub stop : Option ℕ
  pub forwards : ℕ → Bool

-- The context lives.
abbrev pub living : Selects
living = record { inserts = λ i. false; stop = none; forwards = λ i. false }

module _ {ℓ} {T : Type ℓ} where
  -- `OrderByEffect` of stream.go on a source that is closed after `source`: what the sink receives,
  -- and whether it is closed. If `Close` leaves the buffer's channel open, the goroutine that passes
  -- on never ends, and the sink stays open.
  unfoldable pub order_by : ℕ → Compare T → Selects → List T → List T × Bool
  unfolding new_ordered_bounded_buffer insert_all close forward
  order_by window_size cmp selects source =
      let buf =
        close selects.stop
          (insert_all cmp selects.inserts source (new_ordered_bounded_buffer window_size)) in
      (forward selects.forwards buf.sent, buf.sink_closed)
