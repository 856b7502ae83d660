-- ===== src/Dispatch/Tests.antt =====
-- A queue of two workers with buffers of one message, keyed by parity, and an answer to a message.
use effect_ive_go.Base.{
  ℕ, ◌%◌, ◌≤◌, ◌≡◌, refl, ◌⊎◌, true, false, Option, some, [], ◌∷◌, ◌++◌, ℕ_discrete, arith, length,
}
use effect_ive_go.Dispatch.{
  get_index_by_hash, partitioned_channel, Worker, Dispatcher, sent, idle, start_workers,
  new_partitioned_queue, Reach, here, next, perform, finish, buffer, hand_over,
}
use effect_ive_go.Dispatch.Bounds.{Reach-bounded}
use effect_ive_go.Dispatch.Order.{only, has_key, held, partitioned-in_order}
use effect_ive_go.Dispatch.Drain.{IsFree, AllBy, worker_drains}
use effect_ive_go.Dispatch.Resume.{
  answered, Awaited, answer, context_err, nil_nil, Await, received, Await-cases,
}

abbrev hash : ℕ → ℕ
hash key = key

abbrev parity : ℕ → ℕ
parity m = m % 2

abbrev route : ℕ → Option ℕ
route = partitioned_channel hash parity 2

index_of_seven : get_index_by_hash hash 7 3 ≡ some 1
unfolding get_index_by_hash
index_of_seven = refl

abbrev waiting : Worker ℕ
waiting = record { queued = 6 ∷ []; handling = some 4; exited = false }

-- After 4 was handed to a worker, 6 put in its buffer, and 3 handed to the other one, which has
-- finished it.
abbrev midway : Dispatcher ℕ
midway = record {
  buffer_size = 1;
  workers = waiting ∷ idle ∷ [];
  cancelled = false;
  accepted = 4 ∷ 6 ∷ 3 ∷ [];
  handled = 3 ∷ [];
}

midway-Reach : Reach route (new_partitioned_queue 2 1) midway
unfolding partitioned_channel get_index_by_hash new_partitioned_queue start_workers
midway-Reach =
    next
      (next
        (next (next here (perform 4 sent (hand_over 0 idle refl refl refl refl refl))) (
          perform 6 sent (
            buffer 0 (record { queued = []; handling = some 4; exited = false }) refl refl refl
              (omega arith))))
        (perform 3 sent (hand_over 1 idle refl refl refl refl refl)))
      (finish 1 (record { queued = []; handling = some 3; exited = false }) 3 refl refl)

Reach-bounded_example :
    (length waiting.queued ≤ 1)
    × ((waiting.exited ≡ false) ⊎ (midway.cancelled ≡ true))
    × (length midway.workers ≡ 2)
Reach-bounded_example = Reach-bounded route 2 1 midway 0 waiting midway-Reach refl

index_of_even : get_index_by_hash hash 0 2 ≡ some 0
unfolding get_index_by_hash
index_of_even = refl

partitioned-in_order_example :
    only (has_key hash ℕ_discrete parity 0) midway.accepted
    ≡ only (has_key hash ℕ_discrete parity 0) midway.handled
      ++ only (has_key hash ℕ_discrete parity 0) (held waiting)
partitioned-in_order_example =
    partitioned-in_order hash ℕ_discrete parity 2 1 0 0 midway waiting midway-Reach index_of_even
      refl

worker_drains_example :
    (e : Dispatcher ℕ) × (r : Reach route midway e) × AllBy route 0 r
    × (e.handled ≡ midway.handled ++ held waiting)
    × IsFree route 0 e
worker_drains_example = worker_drains route 0 waiting midway refl refl

resumed : Await {R = ℕ} false (answered sent false 9) (answer 9)
unfolding answered
resumed = received 9 refl

Await-cases_example :
    (((sent ≡ sent) × (◌≡◌ {A = Awaited ℕ} (answer 9) (answer 9)) × (false ≡ false))
      ⊎ ((◌≡◌ {A = Awaited ℕ} (answer 9) context_err) × (false ≡ true))
      ⊎ ((sent ≡ sent)
          × (◌≡◌ {A = Awaited ℕ} (answer 9) nil_nil)
          × (false ≡ true)
          × (false ≡ false)))
    × Await {R = ℕ} false (answered sent false 9) (answer 9)
    × Await {R = ℕ} false (answered sent true 9) nil_nil
Await-cases_example = Await-cases sent false false 9 (answer 9) resumed
