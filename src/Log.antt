-- ===== src/Log.antt =====
-- effects/log: messages to a logger of the user's, in the order in which the handler takes them.
--
-- The logger is a parameter: what each of its methods does to its state `L`, or that it does not
-- return. A map of fields is an association list, whose order means nothing. `defaults` is the
-- store of the maps that were given as default fields, as the handler writes to the first of them.
pub mod Fields
mod Tests
use effect_ive_go.Base.{
  ℕ, ◌≡◌, Bool, true, false, Option, none, some, List, [], ◌∷◌, ◌++◌, ◌==◌, if◌then◌else◌,
}
use effect_ive_go.Helper.{Outcome, ret, missing, fault, ◌>>=◌}

-- The levels, and the strings that are none of them.
pub data LogLevel : Type 0 where
  log_trace : LogLevel
  log_debug : LogLevel
  log_info : LogLevel
  log_warn : LogLevel
  log_error : LogLevel
  log_fatal : LogLevel
  log_panic : LogLevel
  other_level : ℕ → LogLevel

-- The methods of `Logger` that write.
pub data Method : Type 0 where
  info : Method
  warn : Method
  error : Method
  debug : Method
  trace : Method
  fatal : Method
  panic_ : Method

abbrev pub Fields : Type 0
Fields = List (ℕ × ℕ)

unfoldable pub field : Fields → ℕ → Option ℕ
field [] key = none
field ((k, v) ∷ fields) key = let rest = field fields key in if k == key then some v else rest

-- `maps.Copy(dst, src)`; a lookup takes the first entry of a key.
unfoldable pub copy_to : Fields → Fields → Fields
copy_to dst [] = dst
copy_to dst ((k, v) ∷ src) = (k, v) ∷ copy_to dst src

-- The same for a map that may be nil, to which nothing can be written.
unfoldable pub copy_to_map : Option Fields → Fields → Outcome (Option Fields)
unfolding copy_to
copy_to_map (some dst) src = ret (some (copy_to dst src))
copy_to_map none [] = ret none
copy_to_map none (_ ∷ _) = fault

pub record Payload : Type 0 where
  pub level : LogLevel
  pub message : ℕ
  pub fields : Fields

-- `Logger`: a method with a message and its fields; `Fatal` and `Panic` may not return.
pub record Logger (L : Type 0) : Type 0 where
  pub write : Method → ℕ → Option Fields → L → Outcome L
  pub sync : L → Option ℕ × L  -- the error, if any

-- The method that the handler's switch calls.
unfoldable pub method_of : LogLevel → Method
method_of log_info = info
method_of log_warn = warn
method_of log_error = error
method_of log_debug = debug
method_of log_trace = trace
method_of log_fatal = fatal
method_of log_panic = panic_
method_of (other_level n) = info

module _ {L : Type 0} (logger : Logger L) where
  -- The handler's function: without default fields, the index panics; else the first map of default
  -- fields is changed, for this message and the later ones.
  unfoldable pub handle : Payload → List (Option Fields) → L → Outcome (List (Option Fields) × L)
  unfolding copy_to_map method_of
  handle p [] l = fault
  handle p (first ∷ others) l = copy_to_map first p.fields >>= λ fields.
      logger.write (method_of p.level) p.message fields l >>= λ l'. ret (fields ∷ others, l')

  -- The messages of a queue, one after another.
  unfoldable pub handle_all :
      List Payload → List (Option Fields) → L → Outcome (List (Option Fields) × L)
  unfolding handle
  handle_all [] defaults l = ret (defaults, l)
  handle_all (p ∷ ps) defaults l = handle p defaults l >>= λ r. handle_all ps r.0 r.1

  -- What the teardown function does after `Sync`; the message's text depends on the error.
  abbrev pub warn_of : (ℕ → ℕ) → Option ℕ × L → Outcome L
  warn_of failed_to_sync (none, l) = ret l
  warn_of failed_to_sync (some err, l) = logger.write warn (failed_to_sync err) none l

  -- The teardown function.
  unfoldable pub teardown : (ℕ → ℕ) → L → Outcome L
  teardown failed_to_sync l = warn_of failed_to_sync (logger.sync l)

-- `Effect`: a panic in the caller's goroutine, for want of a handler, becomes a line of the package
-- log; `printed` are those lines.
abbrev pub print_if : {W : Type 0} → Payload → Outcome W → W → List Payload → W × List Payload
print_if p (ret w') w printed = (w', printed)
print_if p missing w printed = (w, printed ++ p ∷ [])
print_if p fault w printed = (w, printed ++ p ∷ [])

unfoldable pub effect :
    {W : Type 0} → (Payload → W → Outcome W) → Payload → W → List Payload → W × List Payload
effect perform p w printed = print_if p (perform p w) w printed
