-- ===== src/State/Stack.antt =====
-- Nested state handlers, innermost first; the effects of state.go as a client calls them; and what
-- the goroutines of a handler do later.
use effect_ive_go.Base.{
  ℕ, zero, suc, ◌+◌, Bool, true, false, Option, none, some, List, [], ◌∷◌, ◌++◌, if◌then◌else◌,
  length, get_elem?, set, ltb, leb, take, drop, ◌&&◌,
}
use effect_ive_go.Helper.{Outcome, ret, missing, ◌>>=◌, Typed, ok, failed, get_typed_value_of}
use effect_ive_go.State.{
  Values, Payload, set_ttl, reset_ttl, load, load_wo_delegation, compare_and_delete,
  insert_if_absent, compare_and_swap, StateStore, store_insert_if_absent,
}
use effect_ive_go.State.Delegate.{Timer, Dynamic, as_bool, as_val, Reply, Handler}
use effect_ive_go.State.Handler.{handle}

-- `n` handlers.
abbrev pub Stack : ℕ → Type 0 → Type 0 → Type 0 → Type 0
Stack zero K V T = Unit
Stack (suc n) K V T = Handler K V T × Stack n K V T

module _ {K V : Type 0} (T : Type 0) (dec : Discrete K) (vs : Values V) where
  -- `effect`, while no context is cancelled: the innermost handler answers, and with none
  -- `PerformResumableEffect` panics.
  unfoldable pub effect :
      ℕ → (n : ℕ) → Stack n K V T → Payload K V → Outcome (Reply V × Stack n K V T)
  unfolding handle
  effect now zero s p = missing
  effect now (suc n) (h, s) p =
      handle dec vs (effect now n) now h s p >>= λ r. ret (r.0, (r.1, r.2))

  module _ (now : ℕ) (n : ℕ) where
    abbrev typed {ℓ} :
        {A : Type ℓ}
        → (Dynamic V → Option A)
        → Payload K V
        → Stack n K V T
        → Outcome (Typed A × Stack n K V T)
    typed cast p s = effect now n s p >>= λ r. ret (get_typed_value_of cast r.0, r.1)

    unfoldable pub load_overlaid_effect : K → Stack n K V T → Outcome (Typed V × Stack n K V T)
    unfolding effect get_typed_value_of
    load_overlaid_effect key = typed as_val (load key)

    unfoldable pub load_effect : K → Stack n K V T → Outcome (Typed V × Stack n K V T)
    unfolding effect get_typed_value_of
    load_effect key = typed as_val (load_wo_delegation key)

    unfoldable pub insert_if_absent_effect :
        K → V → Stack n K V T → Outcome (Typed Bool × Stack n K V T)
    unfolding effect get_typed_value_of
    insert_if_absent_effect key new = typed as_bool (insert_if_absent key new)

    -- The result of the second effect is dropped.
    unfoldable pub insert_if_absent_with_ttl_effect :
        K → V → ℕ → Stack n K V T → Outcome (Typed Bool × Stack n K V T)
    unfolding insert_if_absent_effect
    insert_if_absent_with_ttl_effect key new ttl s = insert_if_absent_effect key new s >>= λ r.
        elim r.0 [
          | ok true ↦ effect now n r.1 (set_ttl key ttl) >>= λ u. ret (r.0, u.1)
          | ok false ↦ ret r
          | failed e ↦ ret r
        ]

    unfoldable pub reset_ttl_effect : K → ℕ → Stack n K V T → Outcome (Typed Bool × Stack n K V T)
    unfolding effect get_typed_value_of
    reset_ttl_effect key ttl = typed as_bool (reset_ttl key ttl)

    unfoldable pub compare_and_delete_effect :
        K → V → Stack n K V T → Outcome (Typed Bool × Stack n K V T)
    unfolding effect get_typed_value_of
    compare_and_delete_effect key old = typed as_bool (compare_and_delete key old)

    unfoldable pub compare_and_swap_effect :
        K → V → V → Stack n K V T → Outcome (Typed Bool × Stack n K V T)
    unfolding effect get_typed_value_of
    compare_and_swap_effect key old new = typed as_bool (compare_and_swap key old new)

module _ {K V T : Type 0} where
  -- The body of `WithEffectHandler`: the store is filled before the handler runs; `init_map` is the
  -- map in the order of the iteration.
  unfoldable pub fill : List (K × V) → StateStore K V T → StateStore K V T
  unfolding store_insert_if_absent
  fill [] store = store
  fill ((k, v) ∷ init_map) store = fill init_map (store_insert_if_absent k v store).1

  unfoldable pub new_state_handler : ℕ → Bool → StateStore K V T → List (K × V) → Handler K V T
  unfolding fill
  new_state_handler num_workers delegation store init_map = record {
    store = fill init_map store;
    timers = λ k. none;
    clocks = [];
    senders = [];
    sink = [];
    sink_cap = num_workers + num_workers;
    delegation = delegation;
  }

  -- The sender at place `i` runs: it sends if the sink has room, and otherwise drops the event.
  unfoldable pub run_sender : ℕ → Handler K V T → Handler K V T
  run_sender i h = elim (get_elem? h.senders i) [
    | none ↦ h
    | some event ↦ record h {
      senders = take i h.senders ++ drop (suc i) h.senders;
      sink = if ltb (length h.sink) h.sink_cap then h.sink ++ event ∷ [] else h.sink;
    }
  ]

-- The value of a typed result, the zero value beside an error.
abbrev pub or_zero : {V : Type 0} → V → Typed V → V
or_zero zero_ (ok v) = v
or_zero zero_ (failed e) = zero_

module _ {K V T S : Type 0} (dec : Discrete K) (vs : Values V)
    (up : S → Payload K V → Outcome (Reply V × S)) where
  -- What the goroutine of `setTTL` does when its timer fires: a load, and a delete of what it saw.
  -- After a failed load the value is the zero value of the type, `zero_`.
  unfoldable pub expire : V → ℕ → K → Handler K V T → S → Outcome (Handler K V T × S)
  unfolding handle get_typed_value_of
  expire zero_ now key h s = handle dec vs up now h s (load key) >>= λ r.
      let old = or_zero zero_ (get_typed_value_of as_val r.0) in
      handle dec vs up now r.1 r.2 (compare_and_delete key old) >>= λ u. ret (u.1, u.2)

  -- A timer fires if it is due and a goroutine waits for it.
  unfoldable pub fire_timer :
      Option (Timer K) → V → ℕ → ℕ → Handler K V T → S → Outcome (Handler K V T × S)
  unfolding expire
  fire_timer none zero_ now i h s = ret (h, s)
  fire_timer (some timer) zero_ now i h s =
      if timer.waiting && leb timer.deadline now
      then expire zero_ now timer.key
          (record h { clocks = set h.clocks i (record timer { waiting = false }) }) s
      else ret (h, s)

  -- The timer at place `i`, at the time `now`.
  unfoldable pub fire : V → ℕ → ℕ → Handler K V T → S → Outcome (Handler K V T × S)
  fire zero_ now i h s = fire_timer (get_elem? h.clocks i) zero_ now i h s
