-- ===== src/Dependency/Resolve.antt =====
-- Nested handlers resolve a call as one list of dependencies does.
use mathlib.Core.List.{append-nil}
use effect_ive_go.Base.{
  Option-cases, inl, inr, if◌then◌else◌, sym, ◌≡◌, refl, ap, ◌∙◌, Bool, true, false, Option, none,
  some, List, [], ◌∷◌, ◌++◌,
}
use effect_ive_go.Helper.{Outcome, ret, missing, fault, ◌>>=◌, no_effect_handler}
use effect_ive_go.Dependency.{
  Reflect, type_implements, implements, matched_or, first_match, Answer, leaves_goroutine,
  delegate_dependency_effect, quack_or_delegate, handle, effect,
}

-- All dependencies, the innermost handler's first.
abbrev pub concat : {A : Type 0} → List (List A) → List A
concat [] = []
concat (xs ∷ xss) = xs ++ concat xss

module _ {Dep : Type 0} where
  -- The first match of the first list, or else of the second.
  abbrev pub or_match : Outcome (Option Dep) → Option Dep → Outcome (Option Dep)
  or_match rest (some dep) = ret (some dep)
  or_match rest none = rest

  after_match :
      (b : Outcome Bool) (x : Dep) (first second : Outcome (Option Dep))
      → (b >>= matched_or (first >>= or_match second) x)
        ≡ ((b >>= matched_or first x) >>= or_match second)
  after_match (ret true) x first second = refl
  after_match (ret false) x first second = refl
  after_match missing x first second = refl
  after_match fault x first second = refl

module _ {Dep Ty Duck : Type 0} (reflect : Reflect Dep Ty Duck) where
  first_match-append :
      (duck : Duck) (xs ys : List Dep)
      → first_match reflect duck (xs ++ ys)
        ≡ (first_match reflect duck xs >>= or_match (first_match reflect duck ys))
  unfolding first_match
  first_match-append duck [] ys = refl
  first_match-append duck (x ∷ xs) ys =
      ap (λ rest. implements reflect x duck >>= matched_or rest x) (first_match-append duck xs ys)
      ∙ after_match (implements reflect x duck) x (first_match reflect duck xs)
          (first_match reflect duck ys)

module _ {D S : Type 0} where
  delegated :
      (s : S) (o : Outcome (Answer D × S))
      → leaves_goroutine (delegate_dependency_effect s (leaves_goroutine o)) ≡ leaves_goroutine o
  unfolding delegate_dependency_effect
  delegated s (ret r) = refl
  delegated s missing = refl
  delegated s fault = refl

module _ {Dep D S : Type 0} (quack : Dep → S → Outcome (Answer D × S)) where
  -- The answer for a dependency, or for none.
  abbrev pub answer : S → Option Dep → Outcome (Answer D × S)
  answer s (some dep) = quack dep s
  answer s none = ret ((none, some no_effect_handler), s)

  without_handler_above :
      (here : Outcome (Option Dep)) (s : S)
      → leaves_goroutine (here >>= quack_or_delegate quack missing s)
        ≡ leaves_goroutine (here >>= answer s)
  unfolding quack_or_delegate delegate_dependency_effect
  without_handler_above (ret (some dep)) s = refl
  without_handler_above (ret none) s = refl
  without_handler_above missing s = refl
  without_handler_above fault s = refl

  after_delegation :
      (here above : Outcome (Option Dep)) (s : S)
      → leaves_goroutine
          (here >>= quack_or_delegate quack (leaves_goroutine (above >>= answer s)) s)
        ≡ leaves_goroutine ((here >>= or_match above) >>= answer s)
  unfolding quack_or_delegate
  after_delegation (ret (some dep)) above s = refl
  after_delegation (ret none) above s = delegated s (above >>= answer s)
  after_delegation missing above s = refl
  after_delegation fault above s = refl

module _ {Dep Ty Duck : Type 0} (reflect : Reflect Dep Ty Duck) (duck : Duck) where
  -- Whether the methods of a dependency that is not nil, or of a pointer to it where it is none
  -- itself, are those of the interface.
  pub data Tested (dep : Dep) (b : Bool) : Type 0 where
    a_pointer :
        (t : Ty)
        → reflect.type_of dep ≡ some t
        → reflect.is_ptr t ≡ true
        → reflect.implements_interface t duck ≡ b
        → Tested dep b
    by_pointer_to :
        (t : Ty)
        → reflect.type_of dep ≡ some t
        → reflect.is_ptr t ≡ false
        → reflect.has_pointer_to ≡ true
        → reflect.implements_interface (reflect.pointer_to t) duck ≡ b
        → Tested dep b
    by_ptr_to :
        (t : Ty)
        → reflect.type_of dep ≡ some t
        → reflect.is_ptr t ≡ false
        → reflect.has_pointer_to ≡ false
        → reflect.implements_interface (reflect.ptr_to t) duck ≡ b
        → Tested dep b

  -- The first dependency that implements the interface, none, or a panic at a nil before it.
  pub data Chosen : List Dep → Outcome (Option Dep) → Type 0 where
    nothing_left : Chosen [] (ret none)
    matches : (dep : Dep) (deps : List Dep) → Tested dep true → Chosen (dep ∷ deps) (ret (some dep))
    passed_over :
        (dep : Dep) (deps : List Dep) (r : Outcome (Option Dep))
        → Tested dep false
        → Chosen deps r
        → Chosen (dep ∷ deps) r
    at_nil : (dep : Dep) (deps : List Dep) → reflect.type_of dep ≡ none → Chosen (dep ∷ deps) fault

  by_kind-Tested :
      (dep : Dep) (t : Ty) (p h : Bool)
      → reflect.type_of dep ≡ some t
      → reflect.is_ptr t ≡ p
      → reflect.has_pointer_to ≡ h
      → Tested dep (
          if p
          then reflect.implements_interface t duck
          else reflect.implements_interface
              (if h then reflect.pointer_to t else reflect.ptr_to t)
              duck)
  by_kind-Tested dep t true h e is has = a_pointer t e is refl
  by_kind-Tested dep t false true e is has = by_pointer_to t e is has refl
  by_kind-Tested dep t false false e is has = by_ptr_to t e is has refl

  type_implements-Tested :
      (dep : Dep) (t : Ty)
      → reflect.type_of dep ≡ some t
      → Tested dep (type_implements reflect t duck)
  unfolding type_implements
  type_implements-Tested dep t e = by_kind-Tested dep t _ _ e refl refl

  matched_or-Chosen :
      (dep : Dep) (deps : List Dep) (b : Bool) (r : Outcome (Option Dep))
      → Tested dep b
      → Chosen deps r
      → Chosen (dep ∷ deps) (matched_or r dep b)
  matched_or-Chosen dep deps true r t c = matches dep deps t
  matched_or-Chosen dep deps false r t c = passed_over dep deps r t c

  first_match-Chosen : (deps : List Dep) → Chosen deps (first_match reflect duck deps)
  unfolding first_match implements
  first_match-Chosen [] = nothing_left
  first_match-Chosen (dep ∷ deps) = elim (Option-cases (reflect.type_of dep)) [
    | inl nil ↦ rw (nil, ◌>>=◌) (at_nil dep deps nil)
    | inr (t, e) ↦
        rw (e, ◌>>=◌)
          (matched_or-Chosen dep deps _ _ (type_implements-Tested dep t e)
            (first_match-Chosen deps))
  ]

module _ {Dep Ty Duck D S : Type 0} (reflect : Reflect Dep Ty Duck)
    (quack : Dep → S → Outcome (Answer D × S)) where
  resolved_as_one :
      (dependencies : List Dep) (ctx : List (List Dep)) (duck : Duck) (s : S)
      → effect reflect quack (dependencies ∷ ctx) duck s
        ≡ leaves_goroutine
            (first_match reflect duck (concat (dependencies ∷ ctx)) >>= answer quack s)
  unfolding effect handle
  resolved_as_one dependencies [] duck s =
      without_handler_above quack (first_match reflect duck dependencies) s
      ∙ ap (λ l. leaves_goroutine (first_match reflect duck l >>= answer quack s))
          (sym (append-nil dependencies))
  resolved_as_one dependencies (outer ∷ ctx) duck s =
      ap (λ above. handle reflect quack dependencies duck above s)
        (resolved_as_one outer ctx duck s)
      ∙ after_delegation quack (first_match reflect duck dependencies)
          (first_match reflect duck (concat (outer ∷ ctx))) s
      ∙ ap (λ found. leaves_goroutine (found >>= answer quack s))
          (sym (first_match-append reflect duck dependencies (concat (outer ∷ ctx))))

  -- The effect below at least one handler is answered as if all dependencies were one list, the
  -- innermost handler's first: by the Quacker's call on the first that matches, or by
  -- ErrNoEffectHandler if none does; a nil dependency before the first match, or a panic of the
  -- Quacker, ends the process.
  pub effect-first_match :
      (dependencies : List Dep) (ctx : List (List Dep)) (duck : Duck) (s : S)
      → (found : Outcome (Option Dep)) × Chosen reflect duck (concat (dependencies ∷ ctx)) found
        × (effect reflect quack (dependencies ∷ ctx) duck s
            ≡ leaves_goroutine (found >>= answer quack s))
  effect-first_match dependencies ctx duck s = (
    first_match reflect duck (concat (dependencies ∷ ctx)),
    first_match-Chosen reflect duck (concat (dependencies ∷ ctx)),
    resolved_as_one dependencies ctx duck s,
  )
