-- ===== src/Registry/Subscriptions.antt =====
-- Who is served by a source's arbiter after `subscribe` and `unsubscribe`
-- (effects/stream/stream.go).
use effect_ive_go.Base.{
  ℕ, ◌+◌, ◌≡◌, refl, sym, ◌⊎◌, inl, inr, true, false, Option, none, some, List, [], ◌∷◌, ◌++◌,
  ℕ_discrete, if_pos, if_neg, eq_self,
}
use effect_ive_go.Helper.{Outcome, ret, ◌>>=◌, Err, fail_to_cas, max_attempts, retry, retry_from}
use effect_ive_go.State.{update}
use effect_ive_go.Registry.{
  SinkDropPair, new_sink_drop_pair, Stored, registered_list, bare_slice, Registry, put,
  compare_and_swap, swap_at, unsubscribe_at, try_register_sink, subscribe_to, subscribe,
  without_sink, try_unregister_sink, unsubscribe_from, unsubscribe,
}

-- The pairs that the arbiter of a source passes messages to; none at all once the entry is a slice.
abbrev pub serves : Option Stored → Option (List SinkDropPair)
serves none = some []
serves (some (registered_list address pairs)) = some pairs
serves (some (bare_slice pairs)) = none

update-here : (m : ℕ → Option Stored) (k : ℕ) (o : Option Stored) → update ℕ_discrete m k o k ≡ o
update-here m k o = if_pos (ℕ_discrete k k) refl o (m k)

update-there :
    (m : ℕ → Option Stored) (k q : ℕ) (o : Option Stored)
    → (q ≡ k) ⊎ (update ℕ_discrete m k o q ≡ m q)
update-there m k q o = elim (ℕ_discrete k q) [
  | yes e ↦ inl (sym e)
  | no ne ↦ inr (if_neg (ℕ_discrete k q) ne o (m q))
]

-- The first subscription to a source starts its arbiter.
abbrev pub started_for : Option Stored → ℕ → List ℕ → List ℕ
started_for none key arbiters = key ∷ arbiters
started_for (some stored) key arbiters = arbiters

-- Only the entry of `key` differs.
abbrev pub Unchanged : ℕ → Registry → Registry → Type 0
Unchanged key reg reg' = (q : ℕ) → (q ≡ key) ⊎ (reg'.entries q ≡ reg.entries q)

swap_own :
    (key old : ℕ) (pairs : List SinkDropPair) (new : Stored) (reg : Registry)
    → reg.entries key ≡ some (registered_list old pairs)
    → compare_and_swap key old new reg ≡ (true, put key (some new) reg)
unfolding compare_and_swap swap_at
swap_own key old pairs new reg e = rw (e, eq_self old) refl

swap_gone :
    (key old : ℕ) (new : Stored) (reg : Registry)
    → reg.entries key ≡ none
    → compare_and_swap key old new reg ≡ (false, reg)
unfolding compare_and_swap swap_at
swap_gone key old new reg e = rw e refl

-- A first attempt that succeeds ends `Retry`.
retry-success :
    {S : Type 0} (fn : S → Outcome (Option Err × S)) (s t : S)
    → fn s ≡ ret (none, t)
    → retry 5 fn s ≡ ret (none, t)
unfolding retry retry_from
retry-success fn s t e = rw (e, ◌>>=◌) refl

put-Unchanged : (key : ℕ) (o : Option Stored) (reg : Registry) → Unchanged key reg (put key o reg)
put-Unchanged key o reg q = update-there reg.entries key q o

-- The pair is served next, after those that were.
record Serves (key : ℕ) (pairs : List SinkDropPair) (reg : Registry)
    (r : Outcome (Option Err × Registry)) : Type 0 where
  after : Registry
  returns : r ≡ ret (none, after)
  served : serves (after.entries key) ≡ some pairs
  others : Unchanged key reg after
  arbiters : after.arbiters ≡ started_for (reg.entries key) key reg.arbiters

registered-Serves :
    (key old : ℕ) (pairs : List SinkDropPair) (pair : SinkDropPair) (reg : Registry)
    → reg.entries key ≡ some (registered_list old pairs)
    → Serves key (pairs ++ pair ∷ []) reg (retry 5 (try_register_sink key old pairs pair) reg)
unfolding try_register_sink
registered-Serves key old pairs pair reg e =
    let grown = record reg { next_address = reg.next_address + 1 } in
    let new = registered_list reg.next_address (pairs ++ pair ∷ []) in
    record {
      after = put key (some new) grown;
      returns =
          retry-success (try_register_sink key old pairs pair) reg (put key (some new) grown)
            (rw (swap_own key old pairs new grown e) refl);
      served = rw (update-here reg.entries key (some new)) refl;
      others = put-Unchanged key (some new) reg;
      arbiters = rw e refl;
    }

subscribe_to-Serves :
    (entry : Option Stored) (key : ℕ) (pairs : List SinkDropPair) (pair : SinkDropPair)
    (reg : Registry)
    → reg.entries key ≡ entry
    → serves entry ≡ some pairs
    → Serves key (pairs ++ pair ∷ []) reg (subscribe_to entry false key pair reg)
unfolding subscribe_to
subscribe_to-Serves none key pairs pair reg at_key e =
    let new = registered_list reg.next_address (pair ∷ []) in
    let is : [] ≡ pairs = cc e in
    record {
      after = record (put key (some new) reg) {
        next_address = reg.next_address + 1;
        arbiters = key ∷ reg.arbiters;
      };
      returns = refl;
      served = rw (update-here reg.entries key (some new), ← is) refl;
      others = put-Unchanged key (some new) reg;
      arbiters = rw at_key refl;
    }
subscribe_to-Serves (some (bare_slice ps)) key pairs pair reg at_key e = cc e
subscribe_to-Serves (some (registered_list old ps)) key pairs pair reg at_key e =
    let is : ps ≡ pairs = cc e in rw (← is) (registered-Serves key old ps pair reg at_key)

-- `subscribe` of a sink with a channel for dropped messages, to a source that has no entry or a
-- list of subscriptions, which its arbiter does not remove meanwhile: it returns no error, the
-- source's arbiter serves the new pair after the old ones, no other source's entry changes, and an
-- arbiter is started for the source if it had no entry, and else none.
pub subscribe-serves :
    (key sink dropped : ℕ) (pairs : List SinkDropPair) (reg : Registry)
    → serves (reg.entries key) ≡ some pairs
    → (reg' : Registry) × (subscribe false key (some sink) (some dropped) reg ≡ ret (none, reg'))
      × (serves (reg'.entries key)
          ≡ some (pairs ++ record { sink = sink; dropped = some dropped } ∷ []))
      × Unchanged key reg reg'
      × (reg'.arbiters ≡ started_for (reg.entries key) key reg.arbiters)
unfolding subscribe new_sink_drop_pair
subscribe-serves key sink dropped pairs reg e =
    let s =
      subscribe_to-Serves (reg.entries key) key pairs
        (record { sink = sink; dropped = some dropped }) reg refl e in
    (s.after, s.returns, s.served, s.others, s.arbiters)

-- `unsubscribe` of a sink that is subscribed to a source, with no interference, returns no error,
-- but from then on the source's arbiter serves nobody: not the other sinks, and not those that are
-- subscribed later, for which `subscribe` returns no error and changes nothing.
pub unsubscribe-serves-none :
    (key sink old : ℕ) (pairs kept : List SinkDropPair) (reg : Registry)
    → reg.entries key ≡ some (registered_list old pairs)
    → without_sink sink pairs ≡ some kept
    → (reg' : Registry) × (unsubscribe false key sink reg ≡ ret (none, reg'))
      × (serves (reg'.entries key) ≡ none)
      × Unchanged key reg reg'
      × ((late dropped : ℕ)
          → subscribe false key (some late) (some dropped) reg' ≡ ret (none, reg'))
unfolding unsubscribe unsubscribe_at unsubscribe_from try_unregister_sink subscribe subscribe_to
    new_sink_drop_pair
unsubscribe-serves-none key sink old pairs kept reg e found =
    let reg' = put key (some (bare_slice kept)) reg in
    (
      reg',
      rw (e, found)
          (retry-success (try_unregister_sink key old kept) reg reg'
            (rw (swap_own key old pairs (bare_slice kept) reg e) refl)),
      rw (update-here reg.entries key (some (bare_slice kept))) refl,
      put-Unchanged key (some (bare_slice kept)) reg,
      λ late dropped. rw (update-here reg.entries key (some (bare_slice kept))) refl,
    )

retry-failure :
    {S : Type 0} (fn : S → Outcome (Option Err × S)) (is_bad : S → Type 0) (s : S)
    → ((t : S) → is_bad t → (u : S) × (fn t ≡ ret (some fail_to_cas, u)) × is_bad u)
    → is_bad s
    → (u : S) × (retry 5 fn s ≡ ret (some (max_attempts 5 fail_to_cas), u)) × is_bad u
unfolding retry retry_from
retry-failure fn is_bad s fails b =
    let (s1, e1, b1) = fails s b in
    let (s2, e2, b2) = fails s1 b1 in
    let (s3, e3, b3) = fails s2 b2 in
    let (s4, e4, b4) = fails s3 b3 in
    let (s5, e5, b5) = fails s4 b4 in (s5, rw (e1, ◌>>=◌, e2, e3, e4, e5) refl, b5)

-- If the arbiter of the source ends between the load and the swap, `subscribe` to a list of
-- subscriptions tries five times, which is the error that it returns, and the source is left
-- without an entry: the list is not loaded again, and no arbiter is started for the new sink.
pub subscribe-after_end :
    (key sink dropped old : ℕ) (pairs : List SinkDropPair) (reg : Registry)
    → reg.entries key ≡ some (registered_list old pairs)
    → (reg' : Registry) × (subscribe true key (some sink) (some dropped) reg
        ≡ ret (some (max_attempts 5 fail_to_cas), reg'))
      × (reg'.entries key ≡ none)
      × (reg'.arbiters ≡ reg.arbiters)
unfolding subscribe subscribe_to new_sink_drop_pair try_register_sink
subscribe-after_end key sink dropped old pairs reg e =
    let (u, returns, (gone, same)) =
      retry-failure
        (try_register_sink key old pairs (record { sink = sink; dropped = some dropped }))
        (λ t. (t.entries key ≡ none) × (t.arbiters ≡ reg.arbiters)) (put key none reg)
        (λ t b. (
          record t { next_address = t.next_address + 1 },
          rw
              (swap_gone key old
                (registered_list t.next_address
                  (pairs ++ record { sink = sink; dropped = some dropped } ∷ []))
                (record t { next_address = t.next_address + 1 }) b.0)
              refl,
          b,
        ))
        (update-here reg.entries key none, refl) in
    (u, rw e returns, gone, same)
