-- ===== src/Lease/Expiring/Room.antt =====
-- An expiring resource that was registered for `n` owners has room for `n + 1`.
use effect_ive_go.Base.{
  ℕ, zero, suc, ◌+◌, ◌≤◌, ◌<◌, ◌≡◌, refl, ap, ◌∙◌, subst, inl, inr, true, false, none, some, [],
  ◌∷◌, ◌++◌, length, length-append, ltb, if_pos, if_neg, Option-cases, ℕ_discrete, arith,
}
use effect_ive_go.Helper.{ret}
use effect_ive_go.Lease.{SourceSinkPair, Heap, Channel, set_channel, make_channel, done, acquire_at}
use effect_ive_go.Lease.Expiring.{Filter, new_filterable_pair, receive}
use effect_ive_go.Lease.Expiring.Owners.{
  Expiring, Step, acquires, takes, Reach, registered, next, held_leases, owners, AllExpired,
  IsBounded, Step-IsBounded, set_here,
}

-- An acquisition where there is room.
acquire_at-room :
    (now c : ℕ) (heap : Heap)
    → (heap.channels c).closed ≡ false
    → length (heap.channels c).times < (heap.channels c).capacity
    → acquire_at false now c heap
      ≡ ret (
        done true,
        set_channel c
            (record (heap.channels c) { times = (heap.channels c).times ++ now ∷ [] })
            heap,
      )
unfolding acquire_at
acquire_at-room now c heap open_ room =
    let free : ltb (length (heap.channels c).times) (heap.channels c).capacity ≡ true =
      ground arith in
    rw (open_, free) refl

-- A source that is open, with the capacity `n`, and `k` leases in it.
record Holds (f : Filter) (n k : ℕ) (s : Expiring) : Type 0 where
  open_ : (s.heap.channels f.source).closed ≡ false
  capacity : (s.heap.channels f.source).capacity ≡ n
  in_buffer : length (s.heap.channels f.source).times ≡ k

-- One more acquisition, at the time of the clock.
abbrev acquired : Filter → Expiring → Expiring
acquired f s = record s {
  heap =
      set_channel f.source
        (record (s.heap.channels f.source) {
          times = (s.heap.channels f.source).times ++ s.clock ∷ [];
        })
        s.heap;
}

acquired-Step :
    (f : Filter) (n k : ℕ) (s : Expiring) → k < n → Holds f n k s → Step f s (acquired f s)
acquired-Step f n k s lt h =
    acquires s _
      (acquire_at-room s.clock f.source s.heap h.open_ (omega (arith, lt, h.capacity, h.in_buffer)))

acquired-Holds :
    (f : Filter) (n k : ℕ) (s : Expiring) → Holds f n k s → Holds f n (suc k) (acquired f s)
acquired-Holds f n k s h =
    let at =
      set_here f.source
        (record (s.heap.channels f.source) {
          times = (s.heap.channels f.source).times ++ s.clock ∷ [];
        })
        s.heap in
    let longer = length-append (s.heap.channels f.source).times (s.clock ∷ []) in
    record {
      open_ = ap (λ (c : Channel). c.closed) at ∙ h.open_;
      capacity = ap (λ (c : Channel). c.capacity) at ∙ h.capacity;
      in_buffer = ap (λ (c : Channel). length c.times) at ∙ omega (arith, longer, h.in_buffer);
    }

-- Acquisitions until the buffer is full, with no time passing.
fill_buffer :
    (f : Filter) (n left k : ℕ) (from s : Expiring)
    → left + k ≡ n
    → Holds f n k s
    → Reach f from s
    → (s' : Expiring) × Reach f from s'
      × Holds f n n s'
      × (s'.held ≡ s.held)
      × (s'.clock ≡ s.clock)
      × (s'.dropped ≡ s.dropped)
fill_buffer f n zero k from s e h r =
    let same : k ≡ n = omega (arith, e) in
    (s, r, subst (λ j. Holds f n j s) same h, refl, refl, refl)
fill_buffer f n (suc left) k from s e h r =
    let lt : k < n = omega (arith, e) in
    fill_buffer f n left (suc k) from (acquired f s) (omega (arith, e)) (acquired-Holds f n k s h)
      (next s (acquired f s) r (acquired-Step f n k s lt h))

-- The filter of a registration, and the resource after it.
abbrev pub filter_of : ℕ → ℕ → ℕ → Heap → Filter
filter_of num_owners ttl poll_interval heap =
    let (pair, heap') = new_filterable_pair num_owners heap in
    record {
      source = (heap'.pairs pair).source;
      sink = (heap'.pairs pair).sink;
      ttl = ttl;
      poll_interval = poll_interval;
    }

abbrev pub new_expiring : ℕ → ℕ → Heap → Expiring
new_expiring num_owners clock heap = record {
  heap = (new_filterable_pair num_owners heap).1;
  held = none;
  clock = clock;
  dropped = [];
}

module _ (n ttl poll_interval clock : ℕ) (heap : Heap) where
  abbrev f : Filter
  f = filter_of n ttl poll_interval heap

  abbrev s0 : Expiring
  s0 = new_expiring n clock heap

  new_source : f.source ≡ heap.next_channel
  unfolding new_filterable_pair
  new_source =
      ap (λ (p : SourceSinkPair). p.source)
        (if_pos (ℕ_discrete heap.next_pair heap.next_pair) refl _ (heap.pairs heap.next_pair))

  new_channel : s0.heap.channels f.source ≡ make_channel n
  unfolding new_filterable_pair
  new_channel =
      ap s0.heap.channels new_source
      ∙ if_neg (ℕ_discrete (heap.next_channel + 1) heap.next_channel) (λ e. omega (arith, e)) _ _
      ∙ if_pos (ℕ_discrete heap.next_channel heap.next_channel) refl (make_channel n) _

  new-Holds : Holds f n 0 s0
  new-Holds = record {
    open_ = ap (λ (c : Channel). c.closed) new_channel;
    capacity = ap (λ (c : Channel). c.capacity) new_channel;
    in_buffer = ap (λ (c : Channel). length c.times) new_channel;
  }

  new-IsBounded : IsBounded f n s0
  new-IsBounded = record {
    capacity = new-Holds.capacity;
    in_buffer = omega (arith, new-Holds.in_buffer);
    expired = tt;
  }

  Reach-IsBounded : (s : Expiring) → Reach f s0 s → IsBounded f n s
  Reach-IsBounded s registered = new-IsBounded
  Reach-IsBounded s (next s' _ r st) = Step-IsBounded f n s' s st (Reach-IsBounded s' r)

  held_at_most : (s : Expiring) → IsBounded f n s → owners f s ≤ n + 1
  held_at_most s b = elim (Option-cases s.held) [
    | inl e ↦ rw e (omega (arith, b.in_buffer))
    | inr (t, e) ↦ rw e (omega (arith, b.in_buffer))
  ]

  -- The first lease, which the filter takes.
  abbrev s1 : Expiring
  s1 = acquired f s0

  times1 : (s1.heap.channels f.source).times ≡ clock ∷ []
  times1 =
      ap (λ (c : Channel). c.times)
        (set_here f.source
          (record (s0.heap.channels f.source) {
            times = (s0.heap.channels f.source).times ++ clock ∷ [];
          })
          s0.heap)
      ∙ ap (λ (c : Channel). c.times ++ clock ∷ []) new_channel

  abbrev s2 : Expiring
  s2 = record s1 { heap = (receive (clock ∷ []) f s1.heap).1; held = some clock }

  taken : Step f s1 s2
  unfolding receive
  taken = takes s1 clock _ refl (ap (λ ts. receive ts f s1.heap) times1)

  taken-Holds : Holds f n 1 s1 → Holds f n 0 s2
  unfolding receive
  taken-Holds h =
      let at = set_here f.source (record (s1.heap.channels f.source) { times = [] }) s1.heap in
      record {
        open_ = ap (λ (c : Channel). c.closed) at ∙ h.open_;
        capacity = ap (λ (c : Channel). c.capacity) at ∙ h.capacity;
        in_buffer = ap (λ (c : Channel). length c.times) at;
      }

  -- A resource that expires, registered for `n` owners, `n` not 0, while the context of its filter
  -- lives and no receiver waits at its sink: of the leases that were acquired, at most `n + 1` are
  -- not dropped at any time, and each that was dropped had expired; and `n + 1` owners can hold it
  -- at the time of the registration, when none has been dropped.
  pub owners-bounded :
      (s : Expiring)
      → 0 < n
      → Reach f s0 s
      → (owners f s ≤ n + 1)
        × AllExpired ttl s.clock s.dropped
        × ((full : Expiring) × Reach f s0 full
            × (owners f full ≡ n + 1)
            × (full.clock ≡ clock)
            × (full.dropped ≡ []))
  owners-bounded s pos reached =
      let h1 = acquired-Holds f n 0 s0 new-Holds in
      let (s', r, full, held, now, dropped) =
        fill_buffer f n n 0 s0 s2 (omega arith) (taken-Holds h1)
          (next s1 s2 (next s0 s1 registered (acquired-Step f n 0 s0 pos new-Holds)) taken) in
      (
        held_at_most s (Reach-IsBounded s reached),
        (Reach-IsBounded s reached).expired,
        (
          s',
          r,
          ap (λ o. length (s'.heap.channels f.source).times + held_leases o) held
              ∙ ap (λ k. k + 1) full.in_buffer,
          now,
          dropped,
        ),
      )
