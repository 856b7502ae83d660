-- ===== src/Helper.antt =====
-- shared/helper/helpers.go, and how code ends: `ret` a value, or a panic. `missing` is the panic
-- with an error that is `ErrNoEffectHandler`, as `delegateStateEffect` and `delegateBindingEffect`
-- recover it; `fault` is any other panic, and also one that leaves a goroutine of a handler: it
-- ends the process.
pub mod Retry
mod Tests
use effect_ive_go.Base.{ℕ, zero, suc, ◌+◌, ◌-◌, true, false, Option, none, some, leb}

pub data Outcome {ℓ} (A : Type ℓ) : Type ℓ where
  ret : A → Outcome A
  missing : Outcome A
  fault : Outcome A

infixl 5 ◌>>=◌
abbrev pub ◌>>=◌ {ℓ κ} : {A : Type ℓ} {B : Type κ} → Outcome A → (A → Outcome B) → Outcome B
ret a >>= f = f a
missing >>= f = missing
fault >>= f = fault

-- The errors of the library; `store_err` is an error of a store that it does not implement.
pub data Err : Type 0 where
  store_err : ℕ → Err
  no_effect_handler : Err  -- `ErrNoEffectHandler`, with the key that was looked up
  unexpected_type : Err  -- `ErrNoEffectHandler: unexpected type`
  wrapped : Err → Err  -- `ErrNoEffectHandler: e`
  no_such_key : Err
  timer_not_found : Err
  fail_to_cas : Err
  max_attempts : ℕ → Err → Err  -- `ErrMaxAttempts: n, e`

-- A typed result `(T, error)`: a value, or the zero value beside an error.
pub data Typed {ℓ} (A : Type ℓ) : Type ℓ where
  ok : A → Typed A
  failed : Err → Typed A

-- `GetTypedValueOf`; `cast` is the assertion `res.(T)`.
unfoldable pub get_typed_value_of {ℓ κ} :
    {D : Type ℓ} {A : Type κ} → (D → Option A) → D × Option Err → Typed A
get_typed_value_of cast (res, some e) = failed (wrapped e)
get_typed_value_of cast (res, none) = elim (cast res) [
  | some a ↦ ok a
  | none ↦ failed unexpected_type
]

-- `GetTypedValueOf2`: `none` stands for `ok` being false.
unfoldable pub get_typed_value_of2 {ℓ κ} :
    {D : Type ℓ} {A : Type κ} → (D → Option A) → Option D → Option A
get_typed_value_of2 cast none = none
get_typed_value_of2 cast (some raw) = cast raw

-- `MustGetTypedValue`: its panics all carry `ErrNoEffectHandler`.
unfoldable pub must_get_typed_value {ℓ κ} :
    {D : Type ℓ} {A : Type κ} → (D → Option A) → D × Option Err → Outcome A
unfolding get_typed_value_of
must_get_typed_value cast r = elim (get_typed_value_of cast r) [ ok a ↦ ret a | failed e ↦ missing ]

module _ {ℓ} {S : Type ℓ} where
  -- The loop of `Retry` after `num` failures, on fuel, with a panic that the source does not have when
  -- the fuel is used up. The state is what `fn` changes.
  unfoldable pub retry_from :
      ℕ → ℕ → ℕ → (S → Outcome (Option Err × S)) → S → Outcome (Option Err × S)
  retry_from zero max num fn s = fault
  retry_from (suc left) max num fn s = fn s >>= λ r. elim r.0 [
    | none ↦ ret (none, r.1)
    | some e ↦ elim (leb max (num + 1)) [
      | true ↦ ret (some (max_attempts (num + 1) e), r.1)
      | false ↦ retry_from left max (num + 1) fn r.1
    ]
  ]

  -- `Retry`: there is a first attempt, also for `maxAttempts` 0. Fuel for `max + 1` runs is enough.
  unfoldable pub retry : ℕ → (S → Outcome (Option Err × S)) → S → Outcome (Option Err × S)
  unfolding retry_from
  retry max fn s = retry_from (max + 1) max 0 fn s
