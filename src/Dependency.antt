-- ===== src/Dependency.antt =====
-- effects/dependency: a call is resolved by the first dependency, from the innermost handler
-- outwards, whose type has the methods of an interface.
--
-- Go's reflection and the caller's Quacker are parameters. Messages are handled at once, while no
-- context is done; `S` is what a Quacker's call changes. A panic that leaves a handler's goroutine
-- ends the process.
pub mod Resolve
mod Tests
use effect_ive_go.Base.{Bool, true, false, Option, none, some, List, [], ◌∷◌, if◌then◌else◌}
use effect_ive_go.Helper.{Outcome, ret, missing, fault, ◌>>=◌, Err, no_effect_handler}

-- What the code uses of the package reflect: `reflect.TypeOf`, with nothing for nil, `Kind() ==
-- reflect.Ptr`, whether `reflect.PointerTo` is there, that function, `reflect.PtrTo` and
-- `Implements`.
pub record Reflect (Dep Ty Duck : Type 0) : Type 0 where
  pub type_of : Dep → Option Ty
  pub is_ptr : Ty → Bool
  pub has_pointer_to : Bool
  pub pointer_to : Ty → Ty
  pub ptr_to : Ty → Ty
  pub implements_interface : Ty → Duck → Bool

abbrev pub matched_or : {Dep : Type 0} → Outcome (Option Dep) → Dep → Bool → Outcome (Option Dep)
matched_or rest dep true = ret (some dep)
matched_or rest dep false = rest

module _ {Dep Ty Duck : Type 0} (reflect : Reflect Dep Ty Duck) where
  -- `implements` for a type.
  unfoldable pub type_implements : Ty → Duck → Bool
  type_implements t duck =
      if reflect.is_ptr t
      then reflect.implements_interface t duck
      else reflect.implements_interface
          (if reflect.has_pointer_to then reflect.pointer_to t else reflect.ptr_to t) duck

  abbrev pub implements_as : Option Ty → Duck → Outcome Bool
  implements_as none duck = fault
  implements_as (some t) duck = ret (type_implements t duck)

  -- `implements`, which panics for nil.
  unfoldable pub implements : Dep → Duck → Outcome Bool
  unfolding type_implements
  implements dep duck = implements_as (reflect.type_of dep) duck

  -- The loop over the dependencies of a handler, up to the first that matches.
  unfoldable pub first_match : Duck → List Dep → Outcome (Option Dep)
  unfolding implements
  first_match duck [] = ret none
  first_match duck (dep ∷ deps) = implements dep duck >>= matched_or (first_match duck deps) dep

-- `ResumableResult`: a value and an error.
abbrev pub Answer : Type 0 → Type 0
Answer D = Option D × Option Err

-- A panic in a goroutine of a handler, whatever its value is.
abbrev pub leaves_goroutine : {A : Type 0} → Outcome A → Outcome A
leaves_goroutine (ret a) = ret a
leaves_goroutine missing = fault
leaves_goroutine fault = fault

-- `delegateDependencyEffect`, which recovers from a missing handler, and the receive of its answer.
unfoldable pub delegate_dependency_effect :
    {D S : Type 0} → S → Outcome (Answer D × S) → Outcome (Answer D × S)
delegate_dependency_effect s (ret r) = ret r
delegate_dependency_effect s missing = ret ((none, some no_effect_handler), s)
delegate_dependency_effect s fault = fault

module _ {Dep D S : Type 0} (quack : Dep → S → Outcome (Answer D × S)) where
  -- What a handler does after its loop, with the effect in the context above it.
  unfoldable pub quack_or_delegate :
      Outcome (Answer D × S) → S → Option Dep → Outcome (Answer D × S)
  unfolding delegate_dependency_effect
  quack_or_delegate above s (some dep) = quack dep s
  quack_or_delegate above s none = delegate_dependency_effect s above

module _ {Dep Ty Duck D S : Type 0} (reflect : Reflect Dep Ty Duck)
    (quack : Dep → S → Outcome (Answer D × S)) where
  -- The handler's function; `quack dep` is `pl.quacker.WithReceiver(dep).Quack(ctx)`.
  unfoldable pub handle : List Dep → Duck → Outcome (Answer D × S) → S → Outcome (Answer D × S)
  unfolding first_match quack_or_delegate
  handle dependencies duck above s =
      leaves_goroutine (first_match reflect duck dependencies >>= quack_or_delegate quack above s)

  -- `Effect` and the receive of its answer, in a context with these handlers, the innermost first.
  unfoldable pub effect : List (List Dep) → Duck → S → Outcome (Answer D × S)
  unfolding handle
  effect [] duck s = missing
  effect (dependencies ∷ ctx) duck s = handle dependencies duck (effect ctx duck s) s
