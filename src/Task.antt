-- ===== src/Task.antt =====
-- effects/task: a function that a goroutine of the handler runs, and its answer.
--
-- `E` are the errors; `function_result` is what the function returns, and `none` if it does not.
-- The function does not panic, as that ends the process.
mod Tests
use effect_ive_go.Base.{Bool, true, false, Option, none, some, List, [], ◌∷◌, ◌++◌}

-- A value and an error.
abbrev pub Result : Type 0 → Type 0 → Type 0
Result D E = Option D × Option E

-- The goroutine's channel `done`: open and empty, closed and empty, or closed with a result.
pub data Done (D E : Type 0) : Type 0 where
  waiting : Done D E
  closed : Done D E
  holds : Result D E → Done D E

-- The two checks of the context, before and after the function runs.
unfoldable pub after_function : {D E : Type 0} → Bool → Result D E → Done D E
after_function true res = closed
after_function false res = holds res

unfoldable pub run_task : {D E : Type 0} → Bool → Bool → Option (Result D E) → Done D E
unfolding after_function
run_task true done_after function_result = closed
run_task false done_after none = waiting
run_task false done_after (some res) = after_function done_after res

-- The answers of the handler's select, for its two cases: the error of a closed channel without a
-- result is `task_channel_closed`.
unfoldable pub from_channel : {D E : Type 0} → E → Done D E → List (Result D E)
from_channel task_channel_closed waiting = []
from_channel task_channel_closed closed = (none, some task_channel_closed) ∷ []
from_channel task_channel_closed (holds res) = res ∷ []

unfoldable pub from_context : {D E : Type 0} → Option E → List (Result D E)
from_context none = []
from_context (some err) = (none, some err) ∷ []

-- The handler's function: the answers that it can give, one for each case of its select that
-- becomes ready; without any it waits. `err` is the error of its context, if that ends,
-- `done_before` and `done_after` whether it has ended at the goroutine's checks.
unfoldable pub handle :
    {D E : Type 0} → E → Option E → Bool → Bool → Option (Result D E) → List (Result D E)
unfolding run_task from_channel from_context
handle task_channel_closed err done_before done_after function_result =
    from_channel task_channel_closed (run_task done_before done_after function_result)
    ++ from_context err
