-- ===== src/Lease/Expiring/Owners.antt =====
-- How many hold an expiring resource of effects/lease/lease.go at a time.
use effect_ive_go.Base.{
  Bool, ℕ, suc, ◌+◌, ◌-◌, ◌*◌, ◌≤◌, ◌<◌, ◌≡◌, refl, ap, ◌∙◌, sym, inl, inr, true, false, Option,
  none, some, List, [], ◌∷◌, ◌++◌, length, length-append, ltb, Bool-cases, if_pos, ℕ_discrete,
  arith,
}
use effect_ive_go.Helper.{Outcome, ret, fault}
use effect_ive_go.Combinators.{
  TryPick, not_ready, sent_now, saw_done, returned, polling, poll_to_produce,
}
use effect_ive_go.Lease.{Heap, Channel, set_channel, done, acquire_at, Answer, blocks}
use effect_ive_go.Lease.Expiring.{Filter, expire, receive, hold}

-- The selects of a filter whose context lives and whose sink nobody waits at: `ReleaseEffect` only
-- polls it, as the filter does.
abbrev pub AllNotReady : List TryPick → Type 0
AllNotReady [] = Unit
AllNotReady (not_ready ∷ picks) = AllNotReady picks
AllNotReady (_ ∷ picks) = ⊥

-- The resource: the channels, the lease that the filter holds, the clock, and the history of the
-- leases that the filter dropped.
pub record Expiring : Type 0 where
  pub heap : Heap
  pub held : Option ℕ
  pub clock : ℕ
  pub dropped : List ℕ

pub data Step (f : Filter) : Expiring → Expiring → Type 0 where
  ticks : (s : Expiring) (later : ℕ) → s.clock ≤ later → Step f s (record s { clock = later })
  acquires :
      (s : Expiring) (heap : Heap)
      → acquire_at false s.clock f.source s.heap ≡ ret (done true, heap)
      → Step f s (record s { heap = heap })
  takes :
      (s : Expiring) (t : ℕ) (heap : Heap)
      → s.held ≡ none
      → receive (s.heap.channels f.source).times f s.heap ≡ (some t, heap)
      → Step f s (record s { heap = heap; held = some t })
  drops :
      (s : Expiring) (t start calls : ℕ) (picks rest : List TryPick)
      → s.held ≡ some t
      → AllNotReady picks
      → hold f start t picks ≡ returned false calls rest
      → s.clock ≡ start + (calls - 1) * f.poll_interval
      → Step f s (record s { held = none; dropped = t ∷ s.dropped })

pub data Reach (f : Filter) (s : Expiring) : Expiring → Type 0 where
  registered : Reach f s s
  next : (s' s'' : Expiring) → Reach f s s' → Step f s' s'' → Reach f s s''

-- The lease that the filter holds.
abbrev pub held_leases : Option ℕ → ℕ
held_leases none = 0
held_leases (some t) = 1

-- The leases that were acquired and not dropped.
abbrev pub owners : Filter → Expiring → ℕ
owners f s = length (s.heap.channels f.source).times + held_leases s.held

-- The leases of a history had expired by the time `clock`.
abbrev pub AllExpired : ℕ → ℕ → List ℕ → Type 0
AllExpired ttl clock [] = Unit
AllExpired ttl clock (t ∷ ts) = (t + ttl ≤ clock) × AllExpired ttl clock ts

pub record IsBounded (f : Filter) (n : ℕ) (s : Expiring) : Type 0 where
  pub capacity : (s.heap.channels f.source).capacity ≡ n
  pub in_buffer : length (s.heap.channels f.source).times ≤ n
  pub expired : AllExpired f.ttl s.clock s.dropped

AllExpired-mono : (ttl a b : ℕ) (ts : List ℕ) → a ≤ b → AllExpired ttl a ts → AllExpired ttl b ts
AllExpired-mono ttl a b [] le x = tt
AllExpired-mono ttl a b (t ∷ ts) le x = (omega (arith, le, x.0), AllExpired-mono ttl a b ts le x.1)

last_call :
    (start t ttl interval from calls : ℕ)
    → calls ≡ from + 1
    → ltb (start + from * interval) (t + ttl) ≡ false
    → t + ttl ≤ start + (calls - 1) * interval
last_call start t ttl interval from calls e f =
    let k : calls - 1 ≡ from = omega (arith, e) in rw k (ground (arith, f))

returned-calls :
    (b c : Bool) (calls calls' : ℕ) (rest rest' : List TryPick)
    → returned b calls rest ≡ returned c calls' rest'
    → calls ≡ calls'
returned-calls b c calls calls' rest rest' e = cc e

-- A filter drops a lease only when it has expired, at the time of the last call.
hold-expired :
    (f : Filter) (start t calls from : ℕ) (picks rest : List TryPick)
    → AllNotReady picks
    → poll_to_produce (λ c u. expire f.ttl (start + c * f.poll_interval) u) from t picks
      ≡ returned false calls rest
    → t + f.ttl ≤ start + (calls - 1) * f.poll_interval
unfolding poll_to_produce expire
hold-expired f start t calls from [] rest a e =
    elim (Bool-cases (ltb (start + from * f.poll_interval) (t + f.ttl))) [
      | inl lives ↦ let no : polling ≡ returned false calls rest = rw lives at e in cc no
      | inr over ↦
          last_call start t f.ttl f.poll_interval from calls
            (sym (returned-calls _ _ _ _ _ _ (rw over at e))) over
    ]
hold-expired f start t calls from (not_ready ∷ picks) rest a e =
    elim (Bool-cases (ltb (start + from * f.poll_interval) (t + f.ttl))) [
      | inl lives ↦ hold-expired f start t calls (from + 1) picks rest a (rw lives at e)
      | inr over ↦
          last_call start t f.ttl f.poll_interval from calls
            (sym (returned-calls _ _ _ _ _ _ (rw over at e))) over
    ]
hold-expired f start t calls from (sent_now ∷ picks) rest a e = absurd a
hold-expired f start t calls from (saw_done ∷ picks) rest a e = absurd a

hold-dropped :
    (f : Filter) (start t calls : ℕ) (picks rest : List TryPick)
    → AllNotReady picks
    → hold f start t picks ≡ returned false calls rest
    → t + f.ttl ≤ start + (calls - 1) * f.poll_interval
unfolding hold
hold-dropped f start t calls picks rest a e = hold-expired f start t calls 0 picks rest a e

pub set_here : (i : ℕ) (c : Channel) (heap : Heap) → (set_channel i c heap).channels i ≡ c
set_here i c heap = if_pos (ℕ_discrete i i) refl c (heap.channels i)

heap_of :
    (a b : Heap)
    → ◌≡◌ {A = Outcome (Answer × Heap)} (ret (done true, a)) (ret (done true, b))
    → a ≡ b
heap_of a b e = cc e

-- An acquisition that succeeds adds its time to the buffer, which had room.
pub acquire_at-added :
    (f : Filter) (now : ℕ) (heap heap' : Heap)
    → acquire_at false now f.source heap ≡ ret (done true, heap')
    → (length (heap.channels f.source).times < (heap.channels f.source).capacity)
      × ((heap'.channels f.source).times ≡ (heap.channels f.source).times ++ now ∷ [])
      × ((heap'.channels f.source).capacity ≡ (heap.channels f.source).capacity)
unfolding acquire_at
acquire_at-added f now heap heap' e = elim (Bool-cases (heap.channels f.source).closed) [
  | inl shut ↦ let no : fault ≡ ret (done true, heap') = rw shut at e in cc no
  | inr open_ ↦
      elim (Bool-cases
        (ltb (length (heap.channels f.source).times) (heap.channels f.source).capacity)) [
          | inl room ↦
              let ch : Channel = heap.channels f.source in
              let left : Heap =
                set_channel f.source (record ch { times = ch.times ++ now ∷ []; closed = false })
                  heap in
              let same = heap_of left heap' (rw (open_, room) at e) in
              let at =
                ap (λ (h : Heap). h.channels f.source) (sym same) ∙ set_here f.source _ heap in
              (
                ground (arith, room),
                ap (λ (c : Channel). c.times) at,
                ap (λ (c : Channel). c.capacity) at,
              )
          | inr full ↦
              let no : ret (blocks, heap) ≡ ret (done true, heap') = rw (open_, full) at e in cc no
        ]
]

-- A receive takes the first time out of the buffer.
pub receive-taken :
    (f : Filter) (t : ℕ) (ts : List ℕ) (heap heap' : Heap)
    → receive ts f heap ≡ (some t, heap')
    → (length ts ≡ suc (length (heap'.channels f.source).times))
      × ((heap'.channels f.source).capacity ≡ (heap.channels f.source).capacity)
unfolding receive
receive-taken f t [] heap heap' e = let no : none ≡ some t = ap (λ r. r.0) e in cc no
receive-taken f t (u ∷ ts) heap heap' e =
    let left : Heap = set_channel f.source (record (heap.channels f.source) { times = ts }) heap in
    let same : left ≡ heap' = ap (λ r. r.1) e in
    let at : heap'.channels f.source ≡ record (heap.channels f.source) { times = ts } =
      ap (λ (h : Heap). h.channels f.source) (sym same) ∙ set_here f.source _ heap in
    (ap (λ (c : Channel). suc (length c.times)) (sym at), ap (λ (c : Channel). c.capacity) at)

pub Step-IsBounded :
    (f : Filter) (n : ℕ) (s s' : Expiring) → Step f s s' → IsBounded f n s → IsBounded f n s'
Step-IsBounded f n s s' (ticks _ later le) b = record {
  capacity = b.capacity;
  in_buffer = b.in_buffer;
  expired = AllExpired-mono f.ttl s.clock later s.dropped le b.expired;
}
Step-IsBounded f n s s' (acquires _ heap e) b =
    let (room, times, same) = acquire_at-added f s.clock s.heap heap e in
    let longer = length-append (s.heap.channels f.source).times (s.clock ∷ []) in
    record {
      capacity = same ∙ b.capacity;
      in_buffer = rw times (omega (arith, room, longer, b.capacity));
      expired = b.expired;
    }
Step-IsBounded f n s s' (takes _ t heap idle e) b =
    let (shorter, same) = receive-taken f t (s.heap.channels f.source).times s.heap heap e in
    record {
      capacity = same ∙ b.capacity;
      in_buffer = omega (arith, shorter, b.in_buffer);
      expired = b.expired;
    }
Step-IsBounded f n s s' (drops _ t since calls picks rest h a e now) b = record {
  capacity = b.capacity;
  in_buffer = b.in_buffer;
  expired = (rw now (hold-dropped f since t calls picks rest a e), b.expired);
}
