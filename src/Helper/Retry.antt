-- ===== src/Helper/Retry.antt =====
-- `Retry` of shared/helper/helpers.go: how often the function runs, and what is returned.
use effect_ive_go.Base.{
  ℕ, zero, suc, ◌+◌, ◌-◌, ◌≤◌, ◌<◌, true, ◌≡◌, refl, ◌⊎◌, inl, inr, Option, none, some,
  Option-cases, leb, false, arith,
}
use effect_ive_go.Helper.{Outcome, ret, Err, max_attempts, retry_from, retry}

module _ {ℓ} {S : Type ℓ} (step : S → Option Err × S) where
  -- `Fails n s t`: `n` runs of the function in a row fail, and lead from the state `s` to `t`.
  pub data Fails : ℕ → S → S → Type ℓ where
    stop : {s : S} → Fails 0 s s
    again :
        {n : ℕ} {s t : S} (e : Err) → (step s).0 ≡ some e → Fails n (step s).1 t → Fails (suc n) s t

  -- The run after `n` failures succeeds.
  pub record Succeeds (left : ℕ) (s : S) (r : Outcome (Option Err × S)) : Type ℓ where
    pub failures : ℕ
    pub enough : failures ≤ left
    pub last : S
    pub fails : Fails failures s last
    pub success : (step last).0 ≡ none
    pub returns : r ≡ ret (none, (step last).1)

  -- The run after `left` failures fails too, which is the failure `num + left + 1`.
  pub record GivesUp (num left : ℕ) (s : S) (r : Outcome (Option Err × S)) : Type ℓ where
    pub last : S
    pub fails : Fails left s last
    pub error : Err
    pub failure : (step last).0 ≡ some error
    pub returns : r ≡ ret (some (max_attempts (num + left + 1) error), (step last).1)

  retry_from-Ended :
      (max num left fuel : ℕ) (s : S)
      → max - 1 ≡ num + left
      → left < fuel
      → Succeeds left s (retry_from fuel max num (λ t. ret (step t)) s)
        ⊎ GivesUp num left s (retry_from fuel max num (λ t. ret (step t)) s)
  unfolding retry_from
  retry_from-Ended max num left zero s e lt = absurd (omega arith)
  retry_from-Ended max num zero (suc fuel) s e lt = elim (Option-cases (step s).0) [
    | inl ok ↦ inl (record {
      failures = 0;
      enough = omega arith;
      last = s;
      fails = stop;
      success = ok;
      returns = rw ok refl;
    })
    | inr (er, bad) ↦ inr (record {
      last = s;
      fails = stop;
      error = er;
      failure = bad;
      returns =
          let z : num + 0 ≡ num = omega arith in
          let reached : leb max (num + 1) ≡ true = ground arith in rw (bad, reached, z) refl;
    })
  ]
  retry_from-Ended max num (suc left) (suc fuel) s e lt = elim (Option-cases (step s).0) [
    | inl ok ↦ inl (record {
      failures = 0;
      enough = omega arith;
      last = s;
      fails = stop;
      success = ok;
      returns = rw ok refl;
    })
    | inr (er, bad) ↦
        let more : leb max (num + 1) ≡ false = ground arith in
        elim (retry_from-Ended max (num + 1) left fuel (step s).1 (omega arith) (omega arith)) [
          | inl w ↦ inl (record {
            failures = suc w.failures;
            enough = omega (arith, w.enough);
            last = w.last;
            fails = again er bad w.fails;
            success = w.success;
            returns = rw (bad, more) w.returns;
          })
          | inr w ↦ inr (record {
            last = w.last;
            fails = again er bad w.fails;
            error = w.error;
            failure = w.failure;
            returns =
                let z : num + suc left ≡ num + 1 + left = omega arith in
                rw (bad, more, z) w.returns;
          })
        ]
  ]

  -- `Retry` of a function that does not panic ends: either the function succeeds after fewer
  -- failures than there are attempts, and the result is no error; or all `maxAttempts` runs fail
  -- (one, if `maxAttempts` is 0), and the result wraps their number and the last error. The state
  -- is that after the last run.
  pub retry-Ended :
      (max : ℕ) (s : S)
      → Succeeds (max - 1) s (retry max (λ t. ret (step t)) s)
        ⊎ GivesUp 0 (max - 1) s (retry max (λ t. ret (step t)) s)
  unfolding retry
  retry-Ended max s = retry_from-Ended max 0 (max - 1) (max + 1) s (omega arith) (omega arith)
