-- ===== src/State/Delegate.antt =====
-- The state handler's data, and what `stateHandler.handle` of state.go does to the handlers above
-- it. `up` performs an effect on the handlers above, whose state is `S`; `now` is the clock's
-- reading, in nanoseconds. A goroutine that the handler starts for an event is an entry of
-- `senders` until it runs, and one that waits for a timer an entry of `clocks`.
use effect_ive_go.Base.{◌≡◌, ℕ, ◌+◌, ◌-◌, Bool, true, Option, none, some, List, if◌then◌else◌}
use effect_ive_go.Helper.{
  Outcome, ret, missing, fault, ◌>>=◌, Err, no_effect_handler, fail_to_cas, ok, failed,
  get_typed_value_of, retry,
}
use effect_ive_go.State.{
  Values, equals, Payload, load_wo_delegation, insert_if_absent, compare_and_swap, StateStore,
}

-- A result of type `any`.
pub data Dynamic (V : Type 0) : Type 0 where
  nil : Dynamic V
  bool : Bool → Dynamic V
  val : V → Dynamic V
  sink_of : Dynamic V  -- the handler's own sink

abbrev pub Reply : Type 0 → Type 0
Reply V = Dynamic V × Option Err

-- `TimeBoundedPayload`: the payload and the ends of its time span.
pub record Event (K V : Type 0) : Type 0 where
  pub payload : Payload K V
  pub from : ℕ
  pub to_ : ℕ

-- A timer that a goroutine waits for, until it has fired.
pub record Timer (K : Type 0) : Type 0 where
  pub key : K
  pub deadline : ℕ
  pub waiting : Bool

pub record Handler (K V T : Type 0) : Type 0 where
  pub store : StateStore K V T
  pub timers : K → Option ℕ  -- the place in `clocks`
  pub clocks : List (Timer K)
  pub senders : List (Event K V)
  pub sink : List (Event K V)
  pub sink_cap : ℕ
  pub delegation : Bool

-- `epsilon` of shared/time.go
abbrev pub epsilon : ℕ
epsilon = 1_000_000

-- `shared.Now`, at the clock's reading: the ends of the time span. The clock is past `epsilon`.
abbrev pub time_span_now : ℕ → ℕ × ℕ
time_span_now now = (now - epsilon, now + epsilon)

module _ {K V : Type 0} where
  unfoldable pub state_payload_with_now : ℕ → Payload K V → Event K V
  state_payload_with_now now p = record {
    payload = p;
    from = (time_span_now now).0;
    to_ = (time_span_now now).1;
  }

-- `r.(bool)` and `r.(V)`
abbrev pub as_bool : {V : Type 0} → Dynamic V → Option Bool
as_bool (bool b) = some b
as_bool _ = none

abbrev pub as_val : {V : Type 0} → Dynamic V → Option V
as_val (val v) = some v
as_val _ = none

module _ {K V S : Type 0} (vs : Values V) (up : S → Payload K V → Outcome (Reply V × S)) where
  -- `delegateStateEffect`
  unfoldable pub delegate_state_effect : S → Payload K V → Outcome (Reply V × S)
  delegate_state_effect s p = elim (up s p) [
    | ret r ↦ ret r
    | missing ↦ ret ((nil, some no_effect_handler), s)
    | fault ↦ fault
  ]

  pub delegate_state_effect-ret :
      (s : S) (p : Payload K V) (r : Reply V × S)
      → up s p ≡ ret r
      → delegate_state_effect s p ≡ ret r
  unfolding delegate_state_effect
  delegate_state_effect-ret s p r e = rw (e, delegate_state_effect)

  pub delegate_state_effect-missing :
      (s : S) (p : Payload K V)
      → up s p ≡ missing
      → delegate_state_effect s p ≡ ret ((nil, some no_effect_handler), s)
  unfolding delegate_state_effect
  delegate_state_effect-missing s p e = rw (e, delegate_state_effect)

  -- `CompareAndSwapEffect` and what `tryToUpdate` makes of its result
  unfoldable pub swap_up : K → V → V → S → Outcome (Option Err × S)
  unfolding get_typed_value_of
  swap_up key old new s = up s (compare_and_swap key old new) >>= λ r.
      elim (get_typed_value_of as_bool r.0) [
        | failed e ↦ ret (some e, r.1)
        | ok swapped ↦ ret (if swapped then none else some fail_to_cas, r.1)
      ]

  unfoldable pub try_to_update : K → V → S → Outcome (Option Err × S)
  unfolding equals swap_up
  try_to_update key new s = up s (load_wo_delegation key) >>= λ r. elim r.0.1 [
    | some e ↦ ret (some e, r.1)
    | none ↦ elim (as_val r.0.0) [
      | none ↦ fault
      | some old ↦ if equals vs old new then ret (none, r.1) else swap_up key old new r.1
    ]
  ]

  -- The deferred function of a compare-and-swap or a compare-and-delete: `||` looks at the
  -- delegated result only if the local one is false.
  unfoldable pub or_delegated : Payload K V → Bool → Option Err → S → Outcome (Reply V × S)
  unfolding delegate_state_effect
  or_delegated p done err s = delegate_state_effect s p >>= λ r.
      if done
      then ret ((bool true, err), r.1)
      else (elim (as_bool r.0.0) [ some d ↦ ret ((bool d, err), r.1) | none ↦ fault ])

  -- A panic that leaves the handler's goroutine, whatever its error, ends the process.
  abbrev pub escape {ℓ} : {A : Type ℓ} → Outcome A → Outcome A
  escape (ret a) = ret a
  escape missing = fault
  escape fault = fault

  -- The deferred function of an insertion; the result stays as it is.
  unfoldable pub insert_delegated : K → V → S → Outcome S
  unfolding delegate_state_effect get_typed_value_of retry try_to_update
  insert_delegated key new s = delegate_state_effect s (insert_if_absent key new) >>= λ r.
      elim (get_typed_value_of as_bool r.0) [
        | failed e ↦ ret r.1
        | ok inserted ↦
            if inserted
            then ret r.1
            else (escape (retry 5 (try_to_update key new) r.1) >>= λ u. ret u.1)
      ]
