-- ===== src/Effects.antt =====
-- effects/helpers.go, resumable_effect.go and fire_and_forget_effect.go: the handlers that a
-- context holds, how an effect finds its handler, and how a handler ends.
--
-- A context is the list of its values, the innermost first; a value under an effect's key is a
-- handler by its number among the handlers made, which stands for its `EffectId`. The queue of a
-- handler is a dispatcher of Dispatch, and its teardown function is a name. The key, the payload
-- type of a handler and the teardown's name are numbers.
pub mod Scopes
pub mod Teardown
pub mod Typed
mod Tests
use effect_ive_go.Base.{
  ℕ, zero, suc, ◌+◌, ◌≡◌, Bool, true, false, Option, none, some, List, [], ◌∷◌, ◌++◌, ◌==◌, ◌&&◌,
  if◌then◌else◌, length, get_elem?, set,
}
use effect_ive_go.Helper.{
  Outcome, ret, missing, fault, ◌>>=◌, Err, no_effect_handler, must_get_typed_value,
}
use effect_ive_go.Dispatch.{Dispatcher, new_single_queue, new_partitioned_queue, Sent, Perform}

pub data Kind : Type 0 where
  resumable : Kind
  fire_and_forget : Kind

-- The dynamic type and the identity of a handler: `ResumableHandler[P]` or
-- `FireAndForgetHandler[P]`.
pub record Handler : Type 0 where
  pub kind : Kind
  pub payload_type : ℕ
  pub effect_id : ℕ

abbrev pub Context : Type 0
Context = List (ℕ × Handler)

-- What a handler's closures share: its queue, whether `once` ran, and its teardown function, if
-- any.
pub record Slot (T : Type 0) : Type 0 where
  pub dispatcher : Dispatcher T
  pub closed : Bool
  pub teardown : Option ℕ

-- `torn_down` is the history of the handlers whose closing body ran, with the teardown function in
-- it.
pub record World (T : Type 0) : Type 0 where
  pub slots : List (Slot T)
  pub torn_down : List ℕ

-- `ctx.Value` and `GetHandler`: the result beside an error.
unfoldable pub value_of : Context → ℕ → Option Handler
value_of [] key = none
value_of ((k, h) ∷ ctx) key = let rest = value_of ctx key in if k == key then some h else rest

abbrev pub found_or_error : Option Handler → Option Handler × Option Err
found_or_error none = (none, some no_effect_handler)
found_or_error (some h) = (some h, none)

unfoldable pub get_handler : Context → ℕ → Option Handler × Option Err
unfolding value_of
get_handler ctx key = found_or_error (value_of ctx key)

abbrev pub same_kind : Kind → Kind → Bool
same_kind resumable resumable = true
same_kind fire_and_forget fire_and_forget = true
same_kind _ _ = false

-- The type assertion on a handler; nil has no type.
unfoldable pub as_handler : Kind → ℕ → Option Handler → Option Handler
as_handler kind payload_type none = none
as_handler kind payload_type (some h) =
    if same_kind h.kind kind && (h.payload_type == payload_type) then some h else none

-- The handler that an effect is performed by, of the kind and the payload type that the effect has.
unfoldable pub handler_for : Kind → ℕ → Context → ℕ → Outcome Handler
unfolding get_handler as_handler must_get_typed_value
handler_for kind payload_type ctx key =
    must_get_typed_value (as_handler kind payload_type) (get_handler ctx key)

-- `ResumableEffectHandlerId` and `FireAndForgetEffectHandlerId`.
unfoldable pub resumable_effect_handler_id : ℕ → Context → ℕ → Outcome ℕ
unfolding handler_for
resumable_effect_handler_id payload_type ctx key =
    handler_for resumable payload_type ctx key >>= λ h. ret h.effect_id

unfoldable pub fire_and_forget_effect_handler_id : ℕ → Context → ℕ → Outcome ℕ
unfolding handler_for
fire_and_forget_effect_handler_id payload_type ctx key =
    handler_for fire_and_forget payload_type ctx key >>= λ h. ret h.effect_id

-- `normalizeTeardown`.
unfoldable pub normalize_teardown : List ℕ → Outcome (Option ℕ)
normalize_teardown [] = ret none
normalize_teardown (td ∷ []) = ret (some td)
normalize_teardown (td ∷ _ ∷ _) = fault

module _ {T : Type 0} where
  -- The body that the four constructors share: the context with the new handler, and the number
  -- that its closing function closes over.
  unfoldable pub with_handler :
      Kind → ℕ → Dispatcher T → ℕ → List ℕ → Context → World T → Outcome (Context × ℕ × World T)
  unfolding normalize_teardown
  with_handler kind payload_type queue key teardown pctx w = normalize_teardown teardown >>= λ td.
      let id = length w.slots in
      ret (
        (key, record { kind = kind; payload_type = payload_type; effect_id = id }) ∷ pctx,
        id,
        record w {
          slots = w.slots ++ record { dispatcher = queue; closed = false; teardown = td } ∷ [];
        },
      )

  unfoldable pub with_resumable_effect_handler :
      ℕ → ℕ → ℕ → List ℕ → Context → World T → Outcome (Context × ℕ × World T)
  unfolding with_handler new_single_queue
  with_resumable_effect_handler payload_type buffer_size key teardown =
      with_handler resumable payload_type (new_single_queue buffer_size) key teardown

  unfoldable pub with_resumable_partitionable_effect_handler :
      ℕ → ℕ → ℕ → ℕ → List ℕ → Context → World T → Outcome (Context × ℕ × World T)
  unfolding with_handler new_partitioned_queue
  with_resumable_partitionable_effect_handler payload_type buffer_size num_workers key teardown =
      with_handler resumable payload_type (new_partitioned_queue num_workers buffer_size) key
        teardown

  -- `NewFireAndForgetHandler` and `NewFireAndForgetPartitionableHandler`: the handler and its queue.
  unfoldable pub new_fire_and_forget_handler : ℕ → ℕ → ℕ → Handler × Dispatcher T
  unfolding new_single_queue
  new_fire_and_forget_handler payload_type effect_id buffer_size = (
    record { kind = fire_and_forget; payload_type = payload_type; effect_id = effect_id },
    new_single_queue buffer_size,
  )

  unfoldable pub new_fire_and_forget_partitionable_handler : ℕ → ℕ → ℕ → ℕ → Handler × Dispatcher T
  unfolding new_partitioned_queue
  new_fire_and_forget_partitionable_handler payload_type effect_id num_workers buffer_size = (
    record { kind = fire_and_forget; payload_type = payload_type; effect_id = effect_id },
    new_partitioned_queue num_workers buffer_size,
  )

  unfoldable pub with_fire_and_forget_effect_handler :
      ℕ → ℕ → ℕ → List ℕ → Context → World T → Outcome (Context × ℕ × World T)
  unfolding with_handler new_fire_and_forget_handler
  with_fire_and_forget_effect_handler payload_type buffer_size key teardown pctx w =
      let made = new_fire_and_forget_handler payload_type (length w.slots) buffer_size in
      with_handler fire_and_forget payload_type made.1 key teardown pctx w

  unfoldable pub with_fire_and_forget_partitionable_effect_handler :
      ℕ → ℕ → ℕ → ℕ → List ℕ → Context → World T → Outcome (Context × ℕ × World T)
  unfolding with_handler new_fire_and_forget_partitionable_handler
  with_fire_and_forget_partitionable_effect_handler payload_type buffer_size num_workers key
        teardown pctx w =
      let made =
        new_fire_and_forget_partitionable_handler payload_type (length w.slots) num_workers
          buffer_size in
      with_handler fire_and_forget payload_type made.1 key teardown pctx w

  -- The body of `once.Do`: the intake stops, and then the teardown function runs.
  abbrev pub close_slot : Slot T → Slot T
  close_slot s = record s { closed = true; dispatcher = record s.dispatcher { cancelled = true } }

  unfoldable pub run_once : Option (Slot T) → ℕ → World T → World T
  run_once none id w = w
  run_once (some s) id w =
      if s.closed
      then w
      else record w { slots = set w.slots id (close_slot s); torn_down = w.torn_down ++ id ∷ [] }

  -- The function that a constructor returns: it gives the outer context, whoever calls it and
  -- however often.
  unfoldable pub end_of_handler : Context → ℕ → World T → Context × World T
  unfolding run_once
  end_of_handler pctx id w = (pctx, run_once (get_elem? w.slots id) id w)

  -- `PerformResumableEffect` and `FireAndForgetEffect`: the message goes to the queue of the
  -- handler that the context has, which may have ended.
  pub data Performs (route : T → Option ℕ) (kind : Kind) (payload_type : ℕ) (ctx : Context)
      (key : ℕ) (m : T) (w : World T) : Sent → World T → Type 0 where
    performs :
        (h : Handler) (s : Slot T) (r : Sent) (d : Dispatcher T)
        → handler_for kind payload_type ctx key ≡ ret h
        → get_elem? w.slots h.effect_id ≡ some s
        → Perform route m s.dispatcher r d
        → Performs route kind payload_type ctx key m w r
            (record w { slots = set w.slots h.effect_id (record s { dispatcher = d }) })

  abbrev pub FireAndForgetEffect :
      (T → Option ℕ) → ℕ → Context → ℕ → T → World T → Sent → World T → Type 0
  FireAndForgetEffect route payload_type ctx key m w r w' =
      Performs route fire_and_forget payload_type ctx key m w r w'
