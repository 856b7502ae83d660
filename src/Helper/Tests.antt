-- ===== src/Helper/Tests.antt =====
-- `Retry` on a function that fails while its state is not 0, and counts it down.
use effect_ive_go.Base.{ℕ, zero, suc, ◌⊎◌, ◌≡◌, refl, Option, none, some}
use effect_ive_go.Helper.{Err, ret, fail_to_cas, max_attempts, retry, retry_from}
use effect_ive_go.Helper.Retry.{Succeeds, GivesUp, retry-Ended}

abbrev countdown : ℕ → Option Err × ℕ
countdown zero = (none, 7)
countdown (suc n) = (some fail_to_cas, n)

third_time : retry 5 (λ n. ret (countdown n)) 2 ≡ ret (none, 7)
unfolding retry retry_from
third_time = refl

out_of_attempts : retry 3 (λ n. ret (countdown n)) 9 ≡ ret (some (max_attempts 3 fail_to_cas), 6)
unfolding retry retry_from
out_of_attempts = refl

retry-Ended_example :
    Succeeds countdown 2 2 (retry 3 (λ n. ret (countdown n)) 2)
    ⊎ GivesUp countdown 0 2 2 (retry 3 (λ n. ret (countdown n)) 2)
retry-Ended_example = retry-Ended countdown 3 2
