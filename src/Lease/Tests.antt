-- ===== src/Lease/Tests.antt =====
-- A resource for one owner, in a table of the in-memory state store.
use effect_ive_go.Base.{
  ℕ, ◌≤◌, ◌≡◌, refl, true, false, Option, none, some, List, [], ◌∷◌, ◌==◌, ℕ_discrete, arith,
}
use effect_ive_go.Helper.{ret}
use effect_ive_go.State.{Values, cas_impl, in_mem_store, update}
use effect_ive_go.State.Delegate.{Handler}
use effect_ive_go.State.Stack.{Stack}
use effect_ive_go.State.Memory.{IsMemory, in_mem_store-Refines}
use effect_ive_go.Lease.{Heap, make_channel, done, blocks}
use effect_ive_go.Lease.Semaphore.{
  Call, acquire, give_back, semaphore_run, lease_run, IsBypass, lease_run-semaphore_run,
}
use effect_ive_go.Lease.OverState.{over_state, IsTable, over_state-Reads, over_state-Writes}
use effect_ive_go.Lease.Lifecycle.{lease_life, lease_life-restores}
use effect_ive_go.Lease.{denied, resource_in_use}
use effect_ive_go.Base.{◌⊎◌, ◌≢◌, if◌then◌else◌}

abbrev values : Values ℕ
values = record { type_of = λ v. 0; equatable = λ v. none; same = ◌==◌ }

-- The key 1 has the pair 10.
abbrev table : ℕ → Option ℕ
table = update ℕ_discrete (λ k. none) 1 (some 10)

abbrev handler : Handler ℕ ℕ (ℕ → Option ℕ)
handler = record {
  store = cas_impl (in_mem_store ℕ_discrete values) table;
  timers = λ k. none;
  clocks = [];
  senders = [];
  sink = [];
  sink_cap = 4;
  delegation = false;
}

-- Every pair is the channel 3, which has room for one time.
abbrev heap : Heap
heap = record {
  pairs = λ pair. record { source = 3; sink = 3 };
  channels = λ c. make_channel 1;
  next_pair = 11;
  next_channel = 4;
}

heap-IsBypass : IsBypass 10 3 1 0 heap
heap-IsBypass = record { ends = refl; capacity = refl; count = refl; is_open = refl }

abbrev calls : List Call
calls = acquire 5 ∷ acquire 6 ∷ give_back ∷ acquire 7 ∷ []

second_waits : semaphore_run 1 calls 0 ≡ (done true ∷ blocks ∷ done true ∷ done true ∷ [], 1)
unfolding semaphore_run
second_waits = refl

table_at_one : table 1 ≡ some 10
unfolding ℕ_discrete
table_at_one = refl

lease_run-semaphore_run_example :
    (s : Stack 1 ℕ ℕ (ℕ → Option ℕ)) × (heap' : Heap) × (lease_run
        (over_state (ℕ → Option ℕ) ℕ_discrete values 0)
        1
        calls
        ((handler, tt), heap)
      ≡ ret ((semaphore_run 1 calls 0).0, s, heap'))
    × IsTable
        (ℕ → Option ℕ)
        ℕ_discrete
        values
        (IsMemory ℕ_discrete values)
        (in_mem_store-Refines ℕ_discrete values)
        0
        s
        table
    × IsBypass 10 3 1 (semaphore_run 1 calls 0).1 heap'
    × ((semaphore_run 1 calls 0).1 ≤ 1)
lease_run-semaphore_run_example =
    lease_run-semaphore_run (over_state (ℕ → Option ℕ) ℕ_discrete values 0)
      (IsTable (ℕ → Option ℕ) ℕ_discrete values (IsMemory ℕ_discrete values)
        (in_mem_store-Refines ℕ_discrete values) 0)
      (over_state-Reads (ℕ → Option ℕ) ℕ_discrete values (IsMemory ℕ_discrete values)
        (in_mem_store-Refines ℕ_discrete values) 0)
      1 calls 10 3 1 0 (handler, tt) table heap (refl, refl) table_at_one heap-IsBypass
      (omega arith)

-- A resource for one owner under the key 2, which the table does not have.
abbrev life_calls : List Call
life_calls = acquire 5 ∷ acquire 6 ∷ give_back ∷ []

absent_at_two : table 2 ≡ none
unfolding ℕ_discrete
absent_at_two = refl

lease_life-restores_example :
    (s : Stack 1 ℕ ℕ (ℕ → Option ℕ)) × (heap' : Heap) × (m' : ℕ → Option ℕ) × (lease_life
        (over_state (ℕ → Option ℕ) ℕ_discrete values 0)
        2
        1
        life_calls
        ((handler, tt), heap)
      ≡ ret (
        done true,
        (semaphore_run 1 life_calls 0).0,
        (if (semaphore_run 1 life_calls 0).1 == 0 then done true else denied resource_in_use),
        s,
        heap',
      ))
    × IsTable
        (ℕ → Option ℕ)
        ℕ_discrete
        values
        (IsMemory ℕ_discrete values)
        (in_mem_store-Refines ℕ_discrete values)
        0
        s
        m'
    × ((((semaphore_run 1 life_calls 0).1 ≡ 0) × ((k : ℕ) → m' k ≡ table k))
        ⊎ (((semaphore_run 1 life_calls 0).1 ≢ 0) × (m' 2 ≡ some 11)))
lease_life-restores_example =
    lease_life-restores (over_state (ℕ → Option ℕ) ℕ_discrete values 0)
      (IsTable (ℕ → Option ℕ) ℕ_discrete values (IsMemory ℕ_discrete values)
        (in_mem_store-Refines ℕ_discrete values) 0)
      ℕ_discrete values
      (over_state-Reads (ℕ → Option ℕ) ℕ_discrete values (IsMemory ℕ_discrete values)
        (in_mem_store-Refines ℕ_discrete values) 0)
      (over_state-Writes (ℕ → Option ℕ) ℕ_discrete values (IsMemory ℕ_discrete values)
        (in_mem_store-Refines ℕ_discrete values) 0)
      (λ pair. ground arith) 2 1 life_calls (handler, tt) table heap (refl, refl) absent_at_two
