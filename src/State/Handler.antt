-- ===== src/State/Handler.antt =====
-- `stateHandler.handle` of state.go, case by case. `up` performs an effect on the handlers above,
-- whose state is `S`; `now` is the clock's reading. Beside an error the value of a reply is not
-- read, and is `nil` here.
use effect_ive_go.Base.{
  ℕ, ◌+◌, Bool, true, false, Option, none, some, [], ◌∷◌, ◌++◌, if◌then◌else◌, ite, length,
  get_elem?, set,
}
use effect_ive_go.Helper.{Outcome, ret, fault, ◌>>=◌, Err, no_such_key, timer_not_found}
use effect_ive_go.State.{
  Values, equals, Payload, set_ttl, reset_ttl, load, load_wo_delegation, compare_and_delete,
  insert_if_absent, compare_and_swap, source, StateStore, Found, store_compare_and_swap,
  store_compare_and_delete, store_insert_if_absent, store_load,
}
use effect_ive_go.State.Delegate.{
  nil, bool, val, sink_of, Reply, Timer, Handler, state_payload_with_now, as_val,
  delegate_state_effect, or_delegated, insert_delegated,
}

abbrev pub Handled : Type 0 → Type 0 → Type 0 → Type 0 → Type 0
Handled K V T S = Outcome (Reply V × Handler K V T × S)

-- With an error the store operation counts as not done.
abbrev pub succeeded : Bool × Option Err → Bool
succeeded (b, some e) = false
succeeded (b, none) = b

module _ {K V T : Type 0} where
  -- `concurrency.Effect` with the function that sends the event
  abbrev pub emit : ℕ → Payload K V → Handler K V T → Handler K V T
  emit now p h = record h { senders = h.senders ++ state_payload_with_now now p ∷ [] }

module _ {K V T S : Type 0} (dec : Discrete K) (vs : Values V)
    (up : S → Payload K V → Outcome (Reply V × S)) where
  -- The timer starts, a goroutine waits for it, and the map names it.
  unfoldable pub handle_set_ttl : ℕ → K → ℕ → Handler K V T → S → Handled K V T S
  handle_set_ttl now key ttl h s =
      let timer : Timer K = record { key = key; deadline = now + ttl; waiting = true } in
      ret (
        (bool true, none),
        record h {
          clocks = h.clocks ++ timer ∷ [];
          timers = λ q. ite (dec key q) (some (length h.clocks)) (h.timers q);
        },
        s,
      )

  -- `Stop` and `Reset` act on the timer alone: a goroutine that has ended does not come back.
  unfoldable pub handle_reset_ttl : ℕ → K → ℕ → Handler K V T → S → Handled K V T S
  handle_reset_ttl now key ttl h s = elim (h.timers key) [
    | none ↦ ret ((nil, some timer_not_found), h, s)
    | some i ↦ elim (get_elem? h.clocks i) [
      | none ↦ ret ((bool true, none), h, s)
      | some timer ↦ ret (
        (bool true, none),
        record h { clocks = set h.clocks i (record timer { deadline = now + ttl }) },
        s,
      )
    ]
  ]

  -- What a compare-and-swap and a compare-and-delete do after the store: the event, if it was done,
  -- and then the deferred delegation.
  unfoldable pub after_store :
      ℕ → Payload K V → Handler K V T → Bool × Option Err → StateStore K V T → S → Handled K V T S
  unfolding or_delegated
  after_store now p h done store s =
      let h1 = record h { store = store } in
      let local = succeeded done in
      let h2 = if local then emit now p h1 else h1 in
      if h.delegation
      then (or_delegated vs up p local done.1 s >>= λ r. ret (r.0, h2, r.1))
      else ret ((bool local, done.1), h2, s)

  unfoldable pub handle_compare_and_swap : ℕ → K → V → V → Handler K V T → S → Handled K V T S
  unfolding equals after_store store_compare_and_swap
  handle_compare_and_swap now key old new h s =
      if equals vs old new
      then ret ((bool true, none), h, s)
      else let (done, store) = store_compare_and_swap vs key old new h.store in
        after_store now (compare_and_swap key old new) h done store s

  unfoldable pub handle_compare_and_delete : ℕ → K → V → Handler K V T → S → Handled K V T S
  unfolding after_store store_compare_and_delete
  handle_compare_and_delete now key old h s =
      let (done, store) = store_compare_and_delete vs key old h.store in
      after_store now (compare_and_delete key old) h done store s

  -- The event is sent whether or not the key was absent.
  unfoldable pub handle_insert_if_absent : ℕ → K → V → Handler K V T → S → Handled K V T S
  unfolding store_insert_if_absent insert_delegated
  handle_insert_if_absent now key new h s =
      let (done, store) = store_insert_if_absent key new h.store in
      let h1 = emit now (insert_if_absent key new) (record h { store = store }) in
      if h.delegation
      then (insert_delegated vs up key new s >>= λ s'. ret ((bool done.0, done.1), h1, s'))
      else ret ((bool done.0, done.1), h1, s)

  -- The answer of the handlers above. Without delegation it is dropped, and the result is `nil`
  -- with no error.
  unfoldable pub keep_above : K → Handler K V T → Reply V → S → Handled K V T S
  keep_above key h (d, some e) s = ret ((nil, some no_such_key), h, s)
  keep_above key h (d, none) s =
      if h.delegation
      then (elim (as_val d) [
        | none ↦ fault
        | some v ↦ ret ((d, none), record h { store = (store_insert_if_absent key v h.store).1 }, s)
      ])
      else ret ((nil, none), h, s)

  -- Not found here: the handlers above are asked.
  unfoldable pub load_above : K → Handler K V T → S → Handled K V T S
  load_above key h s = delegate_state_effect vs up s (load key) >>= λ r. keep_above key h r.0 r.1

  unfoldable pub finish_load : K → Found V → Handler K V T → S → Handled K V T S
  finish_load key (cur, some e) h s = ret ((nil, some e), h, s)
  finish_load key (some v, none) h s = ret ((val v, none), h, s)
  finish_load key (none, none) h s = load_above key h s

  unfoldable pub handle_load : K → Handler K V T → S → Handled K V T S
  handle_load key h s =
      let r = store_load key h.store in finish_load key r.0 (record h { store = r.1 }) s

  unfoldable pub finish_load_wo_delegation : Found V → Handler K V T → S → Handled K V T S
  finish_load_wo_delegation (cur, some e) h s = ret ((nil, some e), h, s)
  finish_load_wo_delegation (some v, none) h s = ret ((val v, none), h, s)
  finish_load_wo_delegation (none, none) h s = ret ((nil, some no_such_key), h, s)

  unfoldable pub handle_load_wo_delegation : K → Handler K V T → S → Handled K V T S
  handle_load_wo_delegation key h s =
      let r = store_load key h.store in finish_load_wo_delegation r.0 (record h { store = r.1 }) s

  -- The `switch`.
  unfoldable pub handle : ℕ → Handler K V T → S → Payload K V → Handled K V T S
  unfolding handle_set_ttl handle_reset_ttl handle_compare_and_swap handle_compare_and_delete
      handle_insert_if_absent handle_load handle_load_wo_delegation
  handle now h s (set_ttl key ttl) = handle_set_ttl now key ttl h s
  handle now h s (reset_ttl key ttl) = handle_reset_ttl now key ttl h s
  handle now h s (compare_and_swap key old new) = handle_compare_and_swap now key old new h s
  handle now h s (compare_and_delete key old) = handle_compare_and_delete now key old h s
  handle now h s (insert_if_absent key new) = handle_insert_if_absent now key new h s
  handle now h s (load key) = handle_load key h s
  handle now h s (load_wo_delegation key) = handle_load_wo_delegation key h s
  handle now h s source = ret ((sink_of, none), h, s)
