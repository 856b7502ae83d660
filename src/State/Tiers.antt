-- ===== src/State/Tiers.antt =====
-- Nested state handlers as tiers: a cache that delegates, above others, above a handler that does
-- not (effects/state/state.go).
pub mod Levels
pub mod Loads
pub mod Writes
pub mod Refinement
use effect_ive_go.Base.{
  ℕ, zero, suc, ◌≡◌, Bool, true, false, ◌||◌, Option, none, some, List, [], ◌∷◌, map, if◌then◌else◌,
}
use effect_ive_go.Helper.{Outcome, ret}
use effect_ive_go.State.{
  Values, equals, Payload, load, load_wo_delegation, insert_if_absent, compare_and_swap,
  compare_and_delete, set_ttl, reset_ttl, source, StateStore, holds, update,
}
use effect_ive_go.State.Memory.{Map, map_insert, map_swap, map_delete}
use effect_ive_go.State.Delegate.{nil, bool, Reply}
use effect_ive_go.State.Stack.{Stack}
use effect_ive_go.State.Single.{loaded}
use effect_ive_go.State.Overlay.{first_value, cached}

module _ {K V : Type 0} (dec : Discrete K) (vs : Values V) where
  -- One of the tiers has the value `old`.
  unfoldable pub any_holds : K → V → List (Map dec vs) → Bool
  any_holds k old [] = false
  any_holds k old (m ∷ ms) = holds vs m k old || any_holds k old ms

  -- The specification, by the maps of the tiers, the innermost first.
  unfoldable pub tiers_step : Payload K V → List (Map dec vs) → Reply V × List (Map dec vs)
  unfolding first_value cached any_holds map_insert map_swap map_delete equals
  tiers_step p [] = ((nil, none), [])
  tiers_step (load k) (m ∷ ms) =
      (loaded dec vs (first_value dec vs k (m ∷ ms)), cached dec vs k (m ∷ ms))
  tiers_step (load_wo_delegation k) (m ∷ ms) = (loaded dec vs (m k), m ∷ ms)
  tiers_step (insert_if_absent k new) (m ∷ ms) =
      let r = map_insert dec vs k new m in
      ((bool r.0, none), r.1 ∷ map (λ a. update dec a k (some new)) ms)
  tiers_step (compare_and_swap k old new) (m ∷ ms) =
      if equals vs old new then ((bool true, none), m ∷ ms) else (
        (bool (any_holds k old (m ∷ ms)), none),
        map (λ a. (map_swap dec vs k old new a).1) (m ∷ ms),
      )
  tiers_step (compare_and_delete k old) (m ∷ ms) =
      ((bool (any_holds k old (m ∷ ms)), none), map (λ a. (map_delete dec vs k old a).1) (m ∷ ms))
  tiers_step _ (m ∷ ms) = ((nil, none), m ∷ ms)

  unfoldable pub tiers_run :
      List (Payload K V) → List (Map dec vs) → List (Reply V) × List (Map dec vs)
  unfolding tiers_step
  tiers_run [] ms = ([], ms)
  tiers_run (p ∷ ps) ms =
      let (r, ms') = tiers_step p ms in let (rs, ms'') = tiers_run ps ms' in (r ∷ rs, ms'')

  -- Equality of values is a path.
  pub record Identities : Type 0 where
    pub plain : (i j : V) → equals vs i j ≡ vs.same i j
    pub reflects : (i j : V) → vs.same i j ≡ true → i ≡ j
    pub reflexive : (i : V) → vs.same i i ≡ true

module _ {K V T : Type 0} (dec : Discrete K) (vs : Values V)
    (is_map : StateStore K V T → Map dec vs → Type 0) where
  -- `n + 1` handlers with stores that are maps, all of which but the outermost delegate.
  abbrev pub Tiers : (n : ℕ) → Stack (suc n) K V T → List (Map dec vs) → Type 0
  Tiers zero s [] = ⊥
  Tiers zero (h, s) (m ∷ []) = is_map h.store m × (h.delegation ≡ false)
  Tiers zero s (m ∷ m' ∷ ms) = ⊥
  Tiers (suc n) s [] = ⊥
  Tiers (suc n) (h, s) (m ∷ ms) = is_map h.store m × (h.delegation ≡ true) × Tiers n s ms

  -- What a payload does to tiers with the maps `ms`.
  pub record Does (n : ℕ) (p : Payload K V) (ms : List (Map dec vs))
      (r : Outcome (Reply V × Stack (suc n) K V T)) : Type 0 where
    pub after : Stack (suc n) K V T
    pub returns : r ≡ ret ((tiers_step dec vs p ms).0, after)
    pub is_left : Tiers n after (tiers_step dec vs p ms).1
