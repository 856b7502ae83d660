-- ===== src/State/Tiers/Levels.antt =====
-- One delegating handler above tiers: a load without delegation and the writes by comparison,
-- given what the tiers answer.
use effect_ive_go.Base.{
  ℕ, suc, ◌≡◌, refl, ap, inl, inr, Bool, true, false, ◌||◌, none, List, ◌∷◌, map, if◌then◌else◌,
  Option-cases, Bool-cases,
}
use effect_ive_go.Helper.{Outcome, ret, ◌>>=◌}
use effect_ive_go.State.{
  Values, equals, Payload, load_wo_delegation, compare_and_swap, compare_and_delete, StateStore,
  store_load, store_compare_and_swap, store_compare_and_delete, Done, holds,
}
use effect_ive_go.State.Memory.{Map, map_swap, map_delete, Refines}
use effect_ive_go.State.Delegate.{
  bool, Reply, Handler, delegate_state_effect, delegate_state_effect-ret, or_delegated,
}
use effect_ive_go.State.Handler.{
  after_store, emit, handle_load_wo_delegation, finish_load_wo_delegation, handle_compare_and_swap,
  handle_compare_and_delete,
}
use effect_ive_go.State.Stack.{Stack, effect}
use effect_ive_go.State.Tiers.{any_holds, tiers_step, Tiers, Does}

module _ {K V T : Type 0} (dec : Discrete K) (vs : Values V)
    (is_map : StateStore K V T → Map dec vs → Type 0) (refines : Refines dec vs is_map) (now n : ℕ)
    (h : Handler K V T) (s : Stack (suc n) K V T) (m m' : Map dec vs) (ms : List (Map dec vs))
    (e : is_map h.store m) (del : h.delegation ≡ true)
    (tiers : Tiers dec vs is_map n s (m' ∷ ms)) where
  abbrev up : Stack (suc n) K V T → Payload K V → Outcome (Reply V × Stack (suc n) K V T)
  up = effect T dec vs now (suc n)

  abbrev Level : Payload K V → Type 0
  Level p = Does dec vs is_map (suc n) p (m ∷ m' ∷ ms) (effect T dec vs now (suc (suc n)) (h, s) p)

  -- A delegated effect that the tiers answer.
  abbrev Answers : Payload K V → Type 0
  Answers p = Does dec vs is_map n p (m' ∷ ms) (effect T dec vs now (suc n) s p)

  delegated :
      (p : Payload K V) (d : Answers p)
      → delegate_state_effect vs up s p ≡ ret ((tiers_step dec vs p (m' ∷ ms)).0, d.after)
  delegated p d = delegate_state_effect-ret vs up s p _ d.returns

  after_store-delegating :
      (p : Payload K V) (b b' : Bool) (store : StateStore K V T) (s' : Stack (suc n) K V T)
      → delegate_state_effect vs up s p ≡ ret ((bool b', none), s')
      → after_store dec vs up now p h (b, none) store s
        ≡ ret (
          (bool (b || b'), none),
          (if b then emit now p (record h { store = store }) else record h { store = store }),
          s',
        )
  unfolding after_store or_delegated
  after_store-delegating p true b' store s' d = rw (del, d) refl
  after_store-delegating p false b' store s' d = rw (del, d) refl

  pub load_wo-Level : (k : K) → Level (load_wo_delegation k)
  unfolding effect handle_load_wo_delegation finish_load_wo_delegation tiers_step
  load_wo-Level k =
      let (found, left) = refines.loads k h.store m e in
      elim (Option-cases (m k)) [
        | inl miss ↦ record {
          after = (record h { store = (store_load k h.store).1 }, s);
          returns = rw (found, miss) refl;
          is_left = (left, del, tiers);
        }
        | inr (v, hit) ↦ record {
          after = (record h { store = (store_load k h.store).1 }, s);
          returns = rw (found, hit) refl;
          is_left = (left, del, tiers);
        }
      ]

  -- After the store, a write that is delegated.
  after_store-Level :
      (p : Payload K V) (b b' : Bool) (done : Done) (store : StateStore K V T) (left : Map dec vs)
      (lefts : List (Map dec vs)) (s' : Stack (suc n) K V T)
      → done ≡ (b, none)
      → is_map store left
      → Tiers dec vs is_map n s' lefts
      → delegate_state_effect vs up s p ≡ ret ((bool b', none), s')
      → tiers_step dec vs p (m ∷ m' ∷ ms) ≡ ((bool (b || b'), none), left ∷ lefts)
      → Does dec vs is_map
          (suc n)
          p
          (m ∷ m' ∷ ms)
          (after_store dec vs up now p h done store s >>= λ r. ret (r.0, (r.1, r.2)))
  after_store-Level p true b' done store left lefts s' f x t d spec = record {
    after = (emit now p (record h { store = store }), s');
    returns = rw (f, after_store-delegating p true b' store s' d, spec) refl;
    is_left = rw spec (x, del, t);
  }
  after_store-Level p false b' done store left lefts s' f x t d spec = record {
    after = (record h { store = store }, s');
    returns = rw (f, after_store-delegating p false b' store s' d, spec) refl;
    is_left = rw spec (x, del, t);
  }

  map_delete_done : (k : K) (old : V) → holds vs m k old ≡ (map_delete dec vs k old m).0
  unfolding map_delete
  map_delete_done k old = elim (Bool-cases (holds vs m k old)) [ inl e ↦ rw e | inr e ↦ rw e ]

  map_swap_done : (k : K) (old new : V) → holds vs m k old ≡ (map_swap dec vs k old new m).0
  unfolding map_swap
  map_swap_done k old new = elim (Bool-cases (holds vs m k old)) [ inl e ↦ rw e | inr e ↦ rw e ]

  pub delete-Level :
      (k : K) (old : V) → Answers (compare_and_delete k old) → Level (compare_and_delete k old)
  unfolding effect handle_compare_and_delete tiers_step any_holds
  delete-Level k old d =
      let (found, left) = refines.deletes k old h.store m e in
      after_store-Level (compare_and_delete k old) (map_delete dec vs k old m).0
        (any_holds dec vs k old (m' ∷ ms)) (store_compare_and_delete vs k old h.store).0
        (store_compare_and_delete vs k old h.store).1 (map_delete dec vs k old m).1 _ d.after found
        left d.is_left (delegated (compare_and_delete k old) d)
        (ap
          (λ b. (
            (bool (b || any_holds dec vs k old (m' ∷ ms)), none),
            map (λ a. (map_delete dec vs k old a).1) (m ∷ m' ∷ ms),
          ))
          (map_delete_done k old))

  swap-Level_other :
      (k : K) (old new : V)
      → equals vs old new ≡ false
      → Answers (compare_and_swap k old new)
      → Level (compare_and_swap k old new)
  unfolding effect handle_compare_and_swap tiers_step any_holds
  swap-Level_other k old new other d =
      let (found, left) = refines.swaps k old new h.store m e in
      let answered = delegated (compare_and_swap k old new) d in
      rw other (
        after_store-Level (compare_and_swap k old new) (map_swap dec vs k old new m).0
          (any_holds dec vs k old (m' ∷ ms)) (store_compare_and_swap vs k old new h.store).0
          (store_compare_and_swap vs k old new h.store).1 (map_swap dec vs k old new m).1
          (map (λ a. (map_swap dec vs k old new a).1) (m' ∷ ms)) d.after found left
          (rw other at d.is_left) (rw other at answered)
          (rw other (
            ap
              (λ b. (
                (bool (b || any_holds dec vs k old (m' ∷ ms)), none),
                map (λ a. (map_swap dec vs k old new a).1) (m ∷ m' ∷ ms),
              ))
              (map_swap_done k old new))))

  pub swap-Level :
      (k : K) (old new : V)
      → (equals vs old new ≡ false → Answers (compare_and_swap k old new))
      → Level (compare_and_swap k old new)
  unfolding effect handle_compare_and_swap tiers_step
  swap-Level k old new d = elim (Bool-cases (equals vs old new)) [
    | inl same ↦ record {
      after = (h, s);
      returns = rw same refl;
      is_left = rw same (e, del, tiers);
    }
    | inr other ↦ swap-Level_other k old new other (d other)
  ]
