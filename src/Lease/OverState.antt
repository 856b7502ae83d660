-- ===== src/Lease/OverState.antt =====
-- The effect functions of State as the operations that a lease needs, over a handler without
-- delegation.
use effect_ive_go.Base.{ℕ, ◌≡◌, refl, ap, false, Option, none, some}
use effect_ive_go.Helper.{ret, ◌>>=◌, get_typed_value_of}
use effect_ive_go.State.{Values, load_wo_delegation, StateStore}
use effect_ive_go.State.Delegate.{as_val}
use effect_ive_go.State.Stack.{
  Stack, load_effect, insert_if_absent_effect, compare_and_delete_effect,
}
use effect_ive_go.State.Memory.{Map, Refines}
use effect_ive_go.State.Single.{effect-Replies, map_step, loaded}
use effect_ive_go.Lease.{StateEffects}
use effect_ive_go.Lease.Lifecycle.{Writes}
use effect_ive_go.State.{insert_if_absent, compare_and_delete}
use effect_ive_go.Lease.Semaphore.{Reads, typed_entry}

module _ {K : Type 0} (T : Type 0) (dec : Discrete K) (vs : Values ℕ) (now : ℕ) where
  abbrev pub over_state : StateEffects K (Stack 1 K ℕ T)
  over_state = record {
    load_pair = load_effect T dec vs now 1;
    insert_pair = insert_if_absent_effect T dec vs now 1;
    delete_pair = compare_and_delete_effect T dec vs now 1;
  }

typed-loaded :
    {K : Type 0} (dec : Discrete K) (vs : Values ℕ) (o : Option ℕ)
    → get_typed_value_of as_val (loaded dec vs o) ≡ typed_entry o
unfolding get_typed_value_of
typed-loaded dec vs none = refl
typed-loaded dec vs (some v) = refl

module _ {K : Type 0} (T : Type 0) (dec : Discrete K) (vs : Values ℕ)
    (is_map : StateStore K ℕ T → Map dec vs → Type 0) (refines : Refines dec vs is_map)
    (now : ℕ) where
  -- A handler without delegation whose store is the table.
  abbrev pub IsTable : Stack 1 K ℕ T → (K → Option ℕ) → Type 0
  IsTable s m = is_map s.0.store m × (s.0.delegation ≡ false)

  -- `LoadEffect` on such a handler reads the table and leaves it.
  pub over_state-Reads : Reads (over_state T dec vs now) IsTable
  unfolding load_effect map_step
  over_state-Reads = record {
    loads = λ k (h, u) m t.
        let r = effect-Replies dec vs is_map refines now h m t.0 t.1 (load_wo_delegation k) tt in
        (
          (r.after, tt),
          rw (r.returns, ◌>>=◌) (ap (λ y. ret (y, (r.after, tt))) (typed-loaded dec vs (m k))),
          (r.is_left, r.alone),
        );
  }

  -- `InsertIfAbsentEffect` and `CompareAndDeleteEffect` on such a handler do what the atomic map
  -- does.
  pub over_state-Writes : Writes dec vs (over_state T dec vs now) IsTable
  unfolding insert_if_absent_effect compare_and_delete_effect map_step get_typed_value_of
  over_state-Writes = record {
    inserts = λ k pair (h, u) m t.
        let r = effect-Replies dec vs is_map refines now h m t.0 t.1 (insert_if_absent k pair) tt in
        ((r.after, tt), rw (r.returns, ◌>>=◌) refl, (r.is_left, r.alone));
    deletes = λ k pair (h, u) m t.
        let r =
          effect-Replies dec vs is_map refines now h m t.0 t.1 (compare_and_delete k pair) tt in
        ((r.after, tt), rw (r.returns, ◌>>=◌) refl, (r.is_left, r.alone));
  }
