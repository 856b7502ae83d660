-- ===== src/Log/Fields.antt =====
-- Which fields the messages of a log handler are written with.
use mathlib.Core.List.{append-nil, append_assoc}
use effect_ive_go.Base.{
  sym, length, ℕ, zero, suc, ◌≡◌, refl, ap, ◌∙◌, Option, none, some, List, [], ◌∷◌, ◌++◌, ◌==◌,
  get_elem?, take, arith, Bool-cases, inl, inr,
}
use effect_ive_go.Helper.{ret, Outcome}
use effect_ive_go.Log.{
  Method, info, warn, error, debug, trace, fatal, panic_, LogLevel, log_trace, log_debug, log_info,
  log_warn, log_error, log_fatal, log_panic, other_level, Fields, field, copy_to, copy_to_map,
  Payload, Logger, method_of, handle, handle_all,
}

-- What a logger wrote: the method, the message and the fields.
abbrev pub Line : Type 0
Line = Method × ℕ × Option Fields

-- A logger whose methods all return, and keep what they are called with.
abbrev pub recorder : Logger (List Line)
recorder = record {
  write = λ method message fields lines. ret (lines ++ (method, message, fields) ∷ []);
  sync = λ lines. (none, lines);
}

abbrev pub or_else : Option ℕ → Option ℕ → Option ℕ
or_else (some v) old = some v
or_else none old = old

-- The value that the last of some messages to have a field gives it.
abbrev pub latest : ℕ → List Payload → Option ℕ → Option ℕ
latest key [] old = old
latest key (p ∷ ps) old = latest key ps (or_else (field p.fields key) old)

field-copy_to :
    (dst src : Fields) (key : ℕ)
    → field (copy_to dst src) key ≡ or_else (field src key) (field dst key)
unfolding copy_to field
field-copy_to dst [] key = refl
field-copy_to dst ((k, v) ∷ src) key = elim (Bool-cases (k == key)) [
  | inl t ↦ ground (arith, t)
  | inr f ↦ ground (arith, f, field-copy_to dst src key)
]

-- The method that is due for a level: that of its name, and `Info` for an unknown one.
pub data IsDue : LogLevel → Method → Type 0 where
  due_trace : IsDue log_trace trace
  due_debug : IsDue log_debug debug
  due_info : IsDue log_info info
  due_warn : IsDue log_warn warn
  due_error : IsDue log_error error
  due_fatal : IsDue log_fatal fatal
  due_panic : IsDue log_panic panic_
  due_other : (n : ℕ) → IsDue (other_level n) info

method_of-IsDue : (level : LogLevel) → IsDue level (method_of level)
unfolding method_of
method_of-IsDue log_trace = due_trace
method_of-IsDue log_debug = due_debug
method_of-IsDue log_info = due_info
method_of-IsDue log_warn = due_warn
method_of-IsDue log_error = due_error
method_of-IsDue log_fatal = due_fatal
method_of-IsDue log_panic = due_panic
method_of-IsDue (other_level n) = due_other n

abbrev pub line_of : Payload → Fields → Line
line_of p fields = (method_of p.level, p.message, some fields)

abbrev pub lines_of : Fields → List Payload → List Line
lines_of first [] = []
lines_of first (p ∷ ps) = line_of p (copy_to first p.fields) ∷ lines_of (copy_to first p.fields) ps

-- The map of default fields after some messages.
abbrev pub fields_after : Fields → List Payload → Fields
fields_after first [] = first
fields_after first (p ∷ ps) = fields_after (copy_to first p.fields) ps

abbrev pub written : List (Option Fields) → List Line → Outcome (List (Option Fields) × List Line)
written defaults lines = ret (defaults, lines)

handle_all-lines :
    (ps : List Payload) (first : Fields) (others : List (Option Fields)) (lines : List Line)
    → handle_all recorder ps (some first ∷ others) lines
      ≡ ret (some (fields_after first ps) ∷ others, lines ++ lines_of first ps)
unfolding handle_all handle copy_to_map
handle_all-lines [] first others lines = ap (written (some first ∷ others)) (sym (append-nil lines))
handle_all-lines (p ∷ ps) first others lines =
    let fs = copy_to first p.fields in
    let line = line_of p fs in
    handle_all-lines ps fs others (lines ++ line ∷ [])
    ∙ ap (written (some (fields_after fs ps) ∷ others))
        (append_assoc lines (line ∷ []) (lines_of fs ps))

-- The line of a message.
pub record HasLine (out : List Line) (k : ℕ) (p : Payload) (before : List Payload) (first : Fields)
    : Type 0 where
  pub method : Method
  pub fields : Fields
  pub is_due : IsDue p.level method
  pub line : get_elem? out k ≡ some (method, p.message, some fields)
  pub as_latest : (key : ℕ) → field fields key ≡ latest key before (field first key)

lines_of-HasLine :
    (ps : List Payload) (first : Fields) (k : ℕ) (p : Payload)
    → get_elem? ps k ≡ some p
    → HasLine (lines_of first ps) k p (take (suc k) ps) first
lines_of-HasLine [] first k p e = cc e
lines_of-HasLine (q ∷ ps) first zero p e =
    let same : q ≡ p = cc e in
    rw (← same) (record {
      method = method_of q.level;
      is_due = method_of-IsDue q.level;
      fields = copy_to first q.fields;
      line = refl;
      as_latest = λ key. field-copy_to first q.fields key;
    })
lines_of-HasLine (q ∷ ps) first (suc k) p e =
    let rest = lines_of-HasLine ps (copy_to first q.fields) k p e in
    record {
      method = rest.method;
      is_due = rest.is_due;
      fields = rest.fields;
      line = rest.line;
      as_latest = λ key.
          rest.as_latest key ∙ ap (latest key (take (suc k) ps)) (field-copy_to first q.fields key);
    }

length-lines_of : (ps : List Payload) (first : Fields) → length (lines_of first ps) ≡ length ps
length-lines_of [] first = refl
length-lines_of (p ∷ ps) first = ap suc (length-lines_of ps (copy_to first p.fields))

-- With a map of default fields and a logger that records its calls, every message is written once, in
-- order, by the method of its level, `Info` for an unknown one; and the fields it is written with
-- hold, for each key, what the last message up to it that has the key gives it, or else the
-- default. So a field of one message stands with all later messages that do not have it.
pub handle_all-HasLine :
    (ps : List Payload) (first : Fields) (others : List (Option Fields)) (k : ℕ) (p : Payload)
    → get_elem? ps k ≡ some p
    → (d : List (Option Fields)) × (out : List Line) × (handle_all recorder ps
          (some first ∷ others)
          []
        ≡ ret (d, out))
      × (length out ≡ length ps)
      × HasLine out k p (take (suc k) ps) first
handle_all-HasLine ps first others k p e = (
  some (fields_after first ps) ∷ others,
  lines_of first ps,
  handle_all-lines ps first others [],
  length-lines_of ps first,
  lines_of-HasLine ps first k p e,
)
