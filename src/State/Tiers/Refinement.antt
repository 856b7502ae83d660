-- ===== src/State/Tiers/Refinement.antt =====
-- Effects on tiers of state handlers, in a row, against their maps.
use effect_ive_go.Base.{
  ℕ, zero, suc, ◌≡◌, refl, ap, ◌∙◌, List, [], ◌∷◌, sym, inl, inr, Bool-cases, Option-cases,
}
use effect_ive_go.Helper.{ret, ◌>>=◌}
use effect_ive_go.State.{
  Values, Payload, load, load_wo_delegation, insert_if_absent, compare_and_swap, compare_and_delete,
  set_ttl, reset_ttl, source, StateStore, equals, holds,
}
use effect_ive_go.State.Memory.{Map, Refines, map_swap, map_delete}
use effect_ive_go.State.Stack.{Stack, effect}
use effect_ive_go.State.Single.{IsData, AllData, map_step, effect_run, effect-Replies}
use effect_ive_go.State.Tiers.{Identities, any_holds, tiers_step, tiers_run, Tiers, Does}
use effect_ive_go.State.Tiers.Levels.{load_wo-Level, swap-Level, delete-Level}
use effect_ive_go.State.Tiers.Loads.{load-Level}
use effect_ive_go.State.Tiers.Writes.{insert-Level}

module _ {K V T : Type 0} (dec : Discrete K) (vs : Values V)
    (is_map : StateStore K V T → Map dec vs → Type 0) (refines : Refines dec vs is_map)
    (ids : Identities dec vs) (now : ℕ) where
  -- One tier is the atomic map.
  one_tier :
      (p : Payload K V) (m : Map dec vs)
      → IsData dec vs p
      → tiers_step dec vs p (m ∷ []) ≡ ((map_step dec vs p m).0, (map_step dec vs p m).1 ∷ [])
  unfolding tiers_step map_step map_swap map_delete any_holds
  one_tier (load k) m d = elim (Option-cases (m k)) [ inl e ↦ rw e refl | inr (v, e) ↦ rw e refl ]
  one_tier (load_wo_delegation k) m d = refl
  one_tier (insert_if_absent k new) m d = refl
  one_tier (compare_and_swap k old new) m d = elim (Bool-cases (equals vs old new)) [
    | inl same ↦ rw same refl
    | inr other ↦ elim (Bool-cases (holds vs m k old)) [
      | inl e ↦ rw (other, e) refl
      | inr e ↦ rw (other, e) refl
    ]
  ]
  one_tier (compare_and_delete k old) m d = elim (Bool-cases (holds vs m k old)) [
    | inl e ↦ rw e refl
    | inr e ↦ rw e refl
  ]
  one_tier (set_ttl k ttl) m d = absurd d
  one_tier (reset_ttl k ttl) m d = absurd d
  one_tier source m d = absurd d

  pub effect-Does :
      (n : ℕ) (p : Payload K V) (s : Stack (suc n) K V T) (ms : List (Map dec vs))
      → IsData dec vs p
      → Tiers dec vs is_map n s ms
      → Does dec vs is_map n p ms (effect T dec vs now (suc n) s p)
  effect-Does zero p s [] d t = absurd t
  effect-Does zero p (h, s) (m ∷ []) d t =
      let r = effect-Replies dec vs is_map refines now h m t.0 t.1 p d in
      let spec = one_tier p m d in
      record {
        after = (r.after, tt);
        returns = r.returns ∙ ap (λ x. ret (x.0, (r.after, tt))) (sym spec);
        is_left = rw spec (r.is_left, r.alone);
      }
  effect-Does zero p s (m ∷ _ ∷ _) d t = absurd t
  effect-Does (suc n) p s [] d t = absurd t
  effect-Does (suc zero) p s (m ∷ []) d t = absurd t.2
  effect-Does (suc (suc n)) p s (m ∷ []) d t = absurd t.2
  effect-Does (suc n) (load k) (h, s) (m ∷ m' ∷ ms) d t =
      load-Level dec vs is_map refines now n h s m m' ms t.0 t.1 t.2 k
        (effect-Does n (load k) s (m' ∷ ms) tt t.2)
  effect-Does (suc n) (load_wo_delegation k) (h, s) (m ∷ m' ∷ ms) d t =
      load_wo-Level dec vs is_map refines now n h s m m' ms t.0 t.1 t.2 k
  effect-Does (suc n) (insert_if_absent k new) (h, s) (m ∷ m' ∷ ms) d t =
      insert-Level dec vs is_map ids now n (effect-Does n) k new refines h m m' ms s t.0 t.1 t.2
  effect-Does (suc n) (compare_and_swap k old new) (h, s) (m ∷ m' ∷ ms) d t =
      swap-Level dec vs is_map refines now n h s m m' ms t.0 t.1 t.2 k old new
        (λ other. effect-Does n (compare_and_swap k old new) s (m' ∷ ms) tt t.2)
  effect-Does (suc n) (compare_and_delete k old) (h, s) (m ∷ m' ∷ ms) d t =
      delete-Level dec vs is_map refines now n h s m m' ms t.0 t.1 t.2 k old
        (effect-Does n (compare_and_delete k old) s (m' ∷ ms) tt t.2)
  effect-Does (suc n) (set_ttl k ttl) s ms d t = absurd d
  effect-Does (suc n) (reset_ttl k ttl) s ms d t = absurd d
  effect-Does (suc n) source s ms d t = absurd d

  -- State handlers in tiers, the innermost first, all of which but the outermost delegate, over
  -- stores that are the atomic maps `ms`, with values that `Equals` compares as Go's `==` does, each
  -- of which equals itself and no other (so no NaN and no `Equatable`): any loads,
  -- overlaid loads, insertions, compare-and-swaps and compare-and-deletes, in a row, give the
  -- replies of the maps, none panics, and the stores are left as the maps are. On the maps, an
  -- overlaid load finds the first value on the way out and keeps it in the tiers that it passed; an
  -- insertion answers for the innermost tier alone and overwrites all others; a compare-and-swap
  -- and a compare-and-delete act on every tier by itself, and succeed if one of them does.
  pub effect_run-tiers_run :
      (n : ℕ) (ps : List (Payload K V)) (s : Stack (suc n) K V T) (ms : List (Map dec vs))
      → AllData dec vs ps
      → Tiers dec vs is_map n s ms
      → (s' : Stack (suc n) K V T) × (effect_run T dec vs now (suc n) ps s
          ≡ ret ((tiers_run dec vs ps ms).0, s'))
        × Tiers dec vs is_map n s' (tiers_run dec vs ps ms).1
  unfolding effect_run tiers_run
  effect_run-tiers_run n [] s ms d t = (s, refl, t)
  effect_run-tiers_run n (p ∷ ps) s ms d t =
      let r = effect-Does n p s ms d.0 t in
      let (s', rest, left) =
        effect_run-tiers_run n ps r.after (tiers_step dec vs p ms).1 d.1 r.is_left in
      (s', rw (r.returns, ◌>>=◌, rest) refl, left)
