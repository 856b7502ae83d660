-- ===== src/Concurrency/Tests.antt =====
-- The supervisor and `AwaitAll` at concrete runs.
use effect_ive_go.Base.{
  ℕ, zero, suc, ◌≡◌, refl, Bool, true, false, Option, none, some, [], ◌∷◌, if◌then◌else◌, ltb,
  arith,
}
use effect_ive_go.Helper.{Err, store_err}
use effect_ive_go.Concurrency.{
  Supervisor, watching, cancelling, not_called, with_effect_handler, spawn, append_cancel,
  take_message, spawn_next, cancel_parent, cancel_next, cancel_child, Reach, here, next,
}
use effect_ive_go.Concurrency.Cancels.{watch-cancelled}
use effect_ive_go.Concurrency.Await.{
  Arrival, result, context_done, HasAt, await_all, await_all-HasAt,
}

-- A supervisor with a child, the parent's context done or not, before and after the child's end.
abbrev one_child : Bool → Bool → Supervisor
one_child parent_done finished = record {
  wg = if finished then 0 else 1;
  children = record { cancelled = false; finished = finished } ∷ [];
  children_cancels = 0 ∷ [];
  done = false;
  parent_done = parent_done;
  to_spawn = 0;
  watcher = watching;
  closing = not_called;
}

spawned : Reach with_effect_handler (one_child false false)
unfolding with_effect_handler spawn append_cancel
spawned = next _ _ (next _ _ here (take_message 1 refl)) (spawn_next 0 refl)

parent_gone : Reach with_effect_handler (one_child true false)
parent_gone = next _ _ spawned cancel_parent

-- The child is cancelled, and one that is spawned before the loop's end is not.
abbrev late_child : Supervisor
late_child = record {
  wg = 2;
  children =
      record { cancelled = true; finished = false }
      ∷ record { cancelled = false; finished = false }
      ∷ [];
  children_cancels = 0 ∷ 1 ∷ [];
  done = false;
  parent_done = true;
  to_spawn = 0;
  watcher = cancelling [];
  closing = not_called;
}

late_run : Reach (record (one_child true false) { watcher = cancelling (0 ∷ []) }) late_child
unfolding spawn append_cancel cancel_child
late_run =
    next _ _ (next _ _ (next _ _ here (take_message 1 refl)) (spawn_next 0 refl))
      (cancel_next 0 [] (record { cancelled = false; finished = false }) refl refl)

watch-cancelled_example : false ≡ ltb 1 1
watch-cancelled_example =
    watch-cancelled (one_child true false) late_child 1
      (record { cancelled = false; finished = false }) parent_gone refl refl late_run refl refl

-- A value of the type, nil with an error, and a context that is done.
abbrev number_of : Option ℕ → Option ℕ
number_of v = v

abbrev three_tasks : ℕ → Arrival ℕ Err
three_tasks zero = result (some 8) none
three_tasks (suc zero) = result none (some (store_err 4))
three_tasks (suc (suc _)) = context_done (store_err 5)

all_three :
    await_all number_of 0 3 (2 ∷ 0 ∷ 1 ∷ []) three_tasks
    ≡ record { results = 8 ∷ 0 ∷ 0 ∷ []; errors = none ∷ none ∷ some (store_err 5) ∷ [] }
unfolding await_all
all_three = refl

await_all-HasAt_example : HasAt (await_all number_of 0 3 (2 ∷ 0 ∷ 1 ∷ []) three_tasks) 1 0 none
await_all-HasAt_example = await_all-HasAt number_of 0 3 (2 ∷ 0 ∷ 1 ∷ []) three_tasks 1 (omega arith)
