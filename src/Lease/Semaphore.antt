-- ===== src/Lease/Semaphore.antt =====
-- A resource of effects/lease that is registered without expiry is a counting semaphore.
use effect_ive_go.Base.{
  ℕ, ◌+◌, ◌-◌, ◌≤◌, ◌≡◌, refl, ap, ◌∙◌, inl, inr, true, false, Option, none, some, List, [], ◌∷◌,
  ◌++◌, if◌then◌else◌, ltb, length, length-append, Bool-cases, if_pos, ℕ_discrete, arith,
}
use effect_ive_go.Helper.{Outcome, ret, ◌>>=◌, wrapped, no_such_key, Typed, ok, failed}
use effect_ive_go.Lease.{
  StateEffects, Heap, Answer, done, blocks, set_channel, acquire_at, release_at, acquire_loaded,
  acquisition, release_loaded, release,
}

-- What `LoadEffect` returns for a table of addresses.
abbrev pub typed_entry : Option ℕ → Typed ℕ
typed_entry none = failed (wrapped no_such_key)
typed_entry (some pair) = ok pair

-- Loads that read a table: they return its entries, and leave states that are the same table.
pub record Reads {K S : Type 0} (ops : StateEffects K S) (is_table : S → (K → Option ℕ) → Type 0)
    : Type 0 where
  pub loads :
      (k : K) (s : S) (m : K → Option ℕ)
      → is_table s m
      → (s' : S) × (ops.load_pair k s ≡ ret (typed_entry (m k), s')) × is_table s' m

-- The owners' calls for one resource; an acquisition comes with its time.
pub data Call : Type 0 where
  acquire : ℕ → Call
  give_back : Call

-- The semaphore: how many leases are out, of `n`.
abbrev pub semaphore_step : ℕ → Call → ℕ → Answer × ℕ
semaphore_step n (acquire now) out = if ltb out n then (done true, out + 1) else (blocks, out)
semaphore_step n give_back out = (done true, out - 1)

unfoldable pub semaphore_run : ℕ → List Call → ℕ → List Answer × ℕ
semaphore_run n [] out = ([], out)
semaphore_run n (call ∷ calls) out =
    let (a, out') = semaphore_step n call out in
    let (as', last) = semaphore_run n calls out' in (a ∷ as', last)

module _ {K S : Type 0} (ops : StateEffects K S) where
  -- The same calls by the effects; an acquisition that blocks is counted as answered so, and
  -- changes nothing.
  abbrev pub lease_step : K → Call → S × Heap → Outcome (Answer × S × Heap)
  lease_step key (acquire now) w = acquisition ops false now key w
  lease_step key give_back w = release ops key w

  unfoldable pub lease_run : K → List Call → S × Heap → Outcome (List Answer × S × Heap)
  lease_run key [] (s, heap) = ret ([], s, heap)
  lease_run key (call ∷ calls) (s, heap) = lease_step key call (s, heap) >>= λ r.
      lease_run key calls (r.1, r.2) >>= λ q. ret (r.0 ∷ q.0, q.1, q.2)

-- The pair is one open channel with `out` times in a buffer of `n`.
pub record IsBypass (pair c n out : ℕ) (heap : Heap) : Type 0 where
  pub ends : heap.pairs pair ≡ record { source = c; sink = c }
  pub capacity : (heap.channels c).capacity ≡ n
  pub count : length (heap.channels c).times ≡ out
  pub is_open : (heap.channels c).closed ≡ false

set_channel-IsBypass :
    (pair c n out out' : ℕ) (heap : Heap) (ts : List ℕ)
    → IsBypass pair c n out heap
    → length ts ≡ out'
    → IsBypass pair c n out' (set_channel c (record (heap.channels c) { times = ts }) heap)
set_channel-IsBypass pair c n out out' heap ts b e =
    let same =
      if_pos (ℕ_discrete c c) refl (record (heap.channels c) { times = ts }) (heap.channels c) in
    record {
      ends = b.ends;
      capacity = rw same b.capacity;
      count = rw same e;
      is_open = rw same b.is_open;
    }

-- What a call does to the heap.
record Stepped (pair c n : ℕ) (a : Answer) (out : ℕ) (r : Outcome (Answer × Heap)) : Type 0 where
  after : Heap
  returns : r ≡ ret (a, after)
  keeps : IsBypass pair c n out after

acquire_at-Stepped :
    (pair c n out now : ℕ) (heap : Heap)
    → IsBypass pair c n out heap
    → Stepped pair c n
        (semaphore_step n (acquire now) out).0
        (semaphore_step n (acquire now) out).1
        (acquire_at false now c heap)
unfolding acquire_at
acquire_at-Stepped pair c n out now heap b = elim (Bool-cases (ltb out n)) [
  | inl t ↦ rw t (record {
    after =
        set_channel c (record (heap.channels c) { times = (heap.channels c).times ++ now ∷ [] })
          heap;
    returns = rw (b.is_open, b.count, b.capacity, t) refl;
    keeps =
        set_channel-IsBypass pair c n out (out + 1) heap _ b
          (length-append (heap.channels c).times (now ∷ []) ∙ ap (λ l. l + 1) b.count);
  })
  | inr f ↦
      rw f
        (record { after = heap; returns = rw (b.is_open, b.count, b.capacity, f) refl; keeps = b })
]

release_at-Stepped :
    (pair c n out : ℕ) (ts : List ℕ) (heap : Heap)
    → IsBypass pair c n out heap
    → (heap.channels c).times ≡ ts
    → Stepped pair c n (done true) (out - 1) (ret (release_at ts c heap))
unfolding release_at
release_at-Stepped pair c n out [] heap b e =
    let z : out ≡ 0 = omega (arith, b.count, ap length e) in
    record {
      after = heap;
      returns = refl;
      keeps = record {
        ends = b.ends;
        capacity = b.capacity;
        is_open = b.is_open;
        count = omega (arith, b.count, z);
      };
    }
release_at-Stepped pair c n out (t ∷ ts) heap b e = record {
  after = set_channel c (record (heap.channels c) { times = ts }) heap;
  returns = refl;
  keeps =
      set_channel-IsBypass pair c n out (out - 1) heap ts b (omega (arith, b.count, ap length e));
}

semaphore_step-bounded : (n out : ℕ) (call : Call) → out ≤ n → (semaphore_step n call out).1 ≤ n
semaphore_step-bounded n out (acquire now) le = ground arith
semaphore_step-bounded n out give_back le = omega arith

module _ {K S : Type 0} (ops : StateEffects K S) (is_table : S → (K → Option ℕ) → Type 0)
    (reads : Reads ops is_table) where
  -- One call: its answer, and what it leaves.
  record Answered (pair c n : ℕ) (m : K → Option ℕ) (a : Answer) (out : ℕ)
      (r : Outcome (Answer × S × Heap)) : Type 0 where
    state : S
    heap : Heap
    returns : r ≡ ret (a, state, heap)
    table : is_table state m
    keeps : IsBypass pair c n out heap

  lease_step-Answered :
      (key : K) (call : Call) (pair c n out : ℕ) (s : S) (m : K → Option ℕ) (heap : Heap)
      → is_table s m
      → m key ≡ some pair
      → IsBypass pair c n out heap
      → Answered pair c n m
          (semaphore_step n call out).0
          (semaphore_step n call out).1
          (lease_step ops key call (s, heap))
  unfolding acquisition acquire_loaded release release_loaded
  lease_step-Answered key (acquire now) pair c n out s m heap t e b =
      let (s', loaded, left) = reads.loads key s m t in
      let st = acquire_at-Stepped pair c n out now heap b in
      record {
        state = s';
        heap = st.after;
        returns = rw (loaded, ◌>>=◌, e, b.ends, st.returns) refl;
        table = left;
        keeps = st.keeps;
      }
  lease_step-Answered key give_back pair c n out s m heap t e b =
      let (s', loaded, left) = reads.loads key s m t in
      let st = release_at-Stepped pair c n out (heap.channels c).times heap b refl in
      record {
        state = s';
        heap = st.after;
        returns =
            rw (loaded, ◌>>=◌, e, b.ends) (ap (λ o. o >>= λ r. ret (r.0, s', r.1)) st.returns);
        table = left;
        keeps = st.keeps;
      }

  -- Owners that acquire and give back, in any order, a resource that is registered without expiry
  -- for `n` owners, with `out` leases out: each call is answered as the counting semaphore answers
  -- it, none panics, the channel holds as many times as leases are out, and these are never more
  -- than `n`.
  pub lease_run-semaphore_run :
      (key : K) (calls : List Call) (pair c n out : ℕ) (s : S) (m : K → Option ℕ) (heap : Heap)
      → is_table s m
      → m key ≡ some pair
      → IsBypass pair c n out heap
      → out ≤ n
      → (s' : S) × (heap' : Heap) × (lease_run ops key calls (s, heap)
          ≡ ret ((semaphore_run n calls out).0, s', heap'))
        × is_table s' m
        × IsBypass pair c n (semaphore_run n calls out).1 heap'
        × ((semaphore_run n calls out).1 ≤ n)
  unfolding lease_run semaphore_run
  lease_run-semaphore_run key [] pair c n out s m heap t e b le = (s, heap, refl, t, b, le)
  lease_run-semaphore_run key (call ∷ calls) pair c n out s m heap t e b le =
      let one = lease_step-Answered key call pair c n out s m heap t e b in
      let (s', heap', rest, table, keeps, bound) =
        lease_run-semaphore_run key calls pair c n (semaphore_step n call out).1 one.state m
          one.heap one.table e one.keeps (semaphore_step-bounded n out call le) in
      (s', heap', rw (one.returns, ◌>>=◌, rest) refl, table, keeps, bound)
