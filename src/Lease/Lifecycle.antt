-- ===== src/Lease/Lifecycle.antt =====
-- A resource of effects/lease from its registration without expiry to its deregistration.
use effect_ive_go.Base.{
  ℕ, ◌≡◌, ◌≢◌, refl, ap, sym, ◌∙◌, ◌⊎◌, inl, inr, true, false, Option, none, some, List, ◌==◌,
  if◌then◌else◌, ltb, length, Bool-cases, if_pos, if_neg, ℕ_discrete, arith, subst,
}
use effect_ive_go.Helper.{Outcome, ret, ◌>>=◌, ok}
use effect_ive_go.State.{Values, update, holds}
use effect_ive_go.State.Memory.{map_insert, map_delete}
use effect_ive_go.Lease.{
  StateEffects, Heap, Answer, done, denied, resource_in_use, set_channel, new_bypass_pair,
  close_source, registration_no_expiry, deregister_loaded, deregistration, make_channel,
}
use effect_ive_go.Lease.Semaphore.{
  Reads, Call, semaphore_run, lease_run, IsBypass, lease_run-semaphore_run,
}

-- Insertions and deletions on a table of addresses.
pub record Writes {K S : Type 0} (dec : Discrete K) (vs : Values ℕ) (ops : StateEffects K S)
    (is_table : S → (K → Option ℕ) → Type 0) : Type 0 where
  pub inserts :
      (k : K) (pair : ℕ) (s : S) (m : K → Option ℕ)
      → is_table s m
      → (s' : S) × (ops.insert_pair k pair s ≡ ret (ok (map_insert dec vs k pair m).0, s'))
        × is_table s' (map_insert dec vs k pair m).1
  pub deletes :
      (k : K) (pair : ℕ) (s : S) (m : K → Option ℕ)
      → is_table s m
      → (s' : S) × (ops.delete_pair k pair s ≡ ret (ok (map_delete dec vs k pair m).0, s'))
        × is_table s' (map_delete dec vs k pair m).1

module _ {K S : Type 0} (ops : StateEffects K S) where
  -- A registration, then calls of owners, then a deregistration: the answers, and what is left.
  abbrev pub lease_life :
      K → ℕ → List Call → S × Heap → Outcome (Answer × List Answer × Answer × S × Heap)
  lease_life key num_owners calls w = registration_no_expiry ops key num_owners w >>= λ r.
      lease_run ops key calls (r.1, r.2) >>= λ q.
      deregistration ops key (q.1, q.2) >>= λ d. ret (r.0, q.0, d.0, d.1, d.2)

-- The pair that a registration makes.
new_bypass_pair-IsBypass :
    (n : ℕ) (heap : Heap) → IsBypass heap.next_pair heap.next_channel n 0 (new_bypass_pair n heap).1
unfolding new_bypass_pair
new_bypass_pair-IsBypass n heap =
    let pair_is =
      if_pos (ℕ_discrete heap.next_pair heap.next_pair) refl
        (record { source = heap.next_channel; sink = heap.next_channel })
        (heap.pairs heap.next_pair) in
    let channel_is =
      if_pos (ℕ_discrete heap.next_channel heap.next_channel) refl (make_channel n)
        (heap.channels heap.next_channel) in
    record {
      ends = pair_is;
      capacity = rw channel_is refl;
      count = rw channel_is refl;
      is_open = rw channel_is refl;
    }

module _ {K : Type 0} (dec : Discrete K) (vs : Values ℕ) where
  update-same : (m : K → Option ℕ) (k : K) (o : Option ℕ) → update dec m k o k ≡ o
  update-same m k o = if_pos (dec k k) refl o (m k)

  -- An insertion for a key that is absent.
  insert-absent :
      (k : K) (pair : ℕ) (m : K → Option ℕ)
      → m k ≡ none
      → map_insert dec vs k pair m ≡ (true, update dec m k (some pair))
  unfolding map_insert
  insert-absent k pair m e = rw (e, map_insert)

  -- The deletion of the pair that is stored, if Go's `==` on pointers is reflexive.
  delete-stored :
      (k : K) (pair : ℕ) (m : K → Option ℕ)
      → m k ≡ some pair
      → vs.same pair pair ≡ true
      → map_delete dec vs k pair m ≡ (true, update dec m k none)
  unfolding map_delete
  delete-stored k pair m e same =
      let stored : holds vs m k pair ≡ true = ground (arith, e, same) in rw stored refl

  -- A key that was absent, after its insertion and deletion.
  update-update :
      (m : K → Option ℕ) (k : K) (o : Option ℕ)
      → m k ≡ none
      → (q : K) → update dec (update dec m k o) k none q ≡ m q
  update-update m k o e q = elim (dec k q) [
    | yes same ↦ if_pos (dec k q) same none (update dec m k o q) ∙ sym e ∙ ap m same
    | no other ↦ if_neg (dec k q) other none (update dec m k o q) ∙ if_neg (dec k q) other o (m q)
  ]

module _ {K S : Type 0} (ops : StateEffects K S) (is_table : S → (K → Option ℕ) → Type 0)
    (dec : Discrete K) (vs : Values ℕ) (reads : Reads ops is_table)
    (writes : Writes dec vs ops is_table) (same_pair : (pair : ℕ) → vs.same pair pair ≡ true) where
  -- The answer of a deregistration with `out` leases out, and the table that it leaves.
  record Deregistered (key : K) (pair out : ℕ) (m : K → Option ℕ) (r : Outcome (Answer × S × Heap))
      : Type 0 where
    state : S
    heap : Heap
    table : K → Option ℕ
    returns : r ≡ ret (if out == 0 then done true else denied resource_in_use, state, heap)
    is_left : is_table state table
    tables : ((out ≡ 0) × (table ≡ update dec m key none)) ⊎ ((out ≢ 0) × (table ≡ m))

  deregistration-Deregistered :
      (key : K) (pair c n out : ℕ) (s : S) (m : K → Option ℕ) (heap : Heap)
      → is_table s m
      → m key ≡ some pair
      → IsBypass pair c n out heap
      → Deregistered key pair out m (deregistration ops key (s, heap))
  unfolding deregistration deregister_loaded close_source
  deregistration-Deregistered key pair c n out s m heap t e b =
      let (s', loaded, left) = reads.loads key s m t in
      let (s'', deleted, after) = writes.deletes key pair s' m left in
      let del = delete-stored dec vs key pair m e (same_pair pair) in
      elim (Bool-cases (out == 0)) [
        | inl zero_out ↦
            let idle : ltb 0 (length (heap.channels c).times) ≡ false =
              ground (arith, b.count, zero_out) in
            record {
              state = s'';
              heap = set_channel c (record (heap.channels c) { closed = true }) heap;
              table = update dec m key none;
              returns = rw (zero_out, loaded, ◌>>=◌, e, b.ends, idle, deleted, del, b.is_open) refl;
              is_left = subst (λ r. is_table s'' r.1) del after;
              tables = inl (ground arith, refl);
            }
        | inr some_out ↦
            let busy : ltb 0 (length (heap.channels c).times) ≡ true =
              ground (arith, b.count, some_out) in
            record {
              state = s';
              heap = heap;
              table = m;
              returns = rw (some_out, loaded, ◌>>=◌, e, b.ends, busy) refl;
              is_left = left;
              tables = inr ((λ z. ground (arith, z, some_out)), refl);
            }
      ]

  -- What a registration of an absent key leaves.
  record Registered (key : K) (n : ℕ) (m : K → Option ℕ) (heap : Heap)
      (r : Outcome (Answer × S × Heap)) : Type 0 where
    state : S
    returns : r ≡ ret (done true, state, (new_bypass_pair n heap).1)
    is_left : is_table state (update dec m key (some heap.next_pair))

  registration-Registered :
      (key : K) (n : ℕ) (s : S) (m : K → Option ℕ) (heap : Heap)
      → is_table s m
      → m key ≡ none
      → Registered key n m heap (registration_no_expiry ops key n (s, heap))
  unfolding registration_no_expiry new_bypass_pair
  registration-Registered key n s m heap t e =
      let (s', inserted, after) = writes.inserts key heap.next_pair s m t in
      let ins = insert-absent dec vs key heap.next_pair m e in
      record {
        state = s';
        returns = rw (inserted, ins) refl;
        is_left = subst (λ r. is_table s' r.1) ins after;
      }

  -- A resource that is registered without expiry under a key that was absent, used by any calls of
  -- owners and then deregistered: the registration and the owners' calls are answered as by a new
  -- semaphore, none panics; the deregistration succeeds exactly if no lease is out, and the table
  -- is then what it was before the registration; or else it is refused, and the resource stays.
  pub lease_life-restores :
      (key : K) (n : ℕ) (calls : List Call) (s : S) (m : K → Option ℕ) (heap : Heap)
      → is_table s m
      → m key ≡ none
      → (s' : S) × (heap' : Heap) × (m' : K → Option ℕ) × (lease_life ops key n calls (s, heap)
          ≡ ret (
            done true,
            (semaphore_run n calls 0).0,
            (if (semaphore_run n calls 0).1 == 0 then done true else denied resource_in_use),
            s',
            heap',
          ))
        × is_table s' m'
        × ((((semaphore_run n calls 0).1 ≡ 0) × ((k : K) → m' k ≡ m k))
            ⊎ (((semaphore_run n calls 0).1 ≢ 0) × (m' key ≡ some heap.next_pair)))
  lease_life-restores key n calls s m heap t e =
      let new = registration-Registered key n s m heap t e in
      let table = update dec m key (some heap.next_pair) in
      let at_key = update-same dec vs m key (some heap.next_pair) in
      let (s1, heap1, ran, left, bypass, bound) =
        lease_run-semaphore_run ops is_table reads key calls heap.next_pair heap.next_channel n 0
          new.state table _ new.is_left at_key (new_bypass_pair-IsBypass n heap) (omega arith) in
      let gone =
        deregistration-Deregistered key heap.next_pair heap.next_channel n
          (semaphore_run n calls 0).1 s1 table heap1 left at_key bypass in
      (
        gone.state,
        gone.heap,
        gone.table,
        rw (new.returns, ◌>>=◌, ran, gone.returns) refl,
        gone.is_left,
        elim gone.tables [
          | inl (none_out, same) ↦
              inl (none_out, λ k. ap (λ f. f k) same ∙ update-update dec vs m key _ e k)
          | inr (some_out, same) ↦ inr (some_out, ap (λ f. f key) same ∙ at_key)
        ],
      )
