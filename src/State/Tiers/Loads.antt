-- ===== src/State/Tiers/Loads.antt =====
-- An overlaid load at a delegating handler above tiers: the value that it finds there is kept.
use effect_ive_go.Base.{
  ℕ, suc, ◌≡◌, refl, ap, ◌∙◌, inl, inr, true, none, some, List, ◌∷◌, Option-cases, sym,
}
use effect_ive_go.Helper.{Outcome, ret, no_such_key}
use effect_ive_go.State.{
  Values, Payload, load, StateStore, update, store_load, store_insert_if_absent,
}
use effect_ive_go.State.Memory.{Map, map_insert, Refines}
use effect_ive_go.State.Delegate.{
  nil, val, Reply, Handler, delegate_state_effect, delegate_state_effect-ret,
}
use effect_ive_go.State.Handler.{handle_load, finish_load, load_above, keep_above}
use effect_ive_go.State.Stack.{Stack, effect}
use effect_ive_go.State.Single.{loaded}
use effect_ive_go.State.Overlay.{first_value, cached}
use effect_ive_go.State.Tiers.{tiers_step, Tiers, Does}

module _ {K V : Type 0} (dec : Discrete K) (vs : Values V) (k : K) where
  first_value_miss :
      (m : Map dec vs) (l : List (Map dec vs))
      → m k ≡ none
      → first_value dec vs k (m ∷ l) ≡ first_value dec vs k l
  unfolding first_value
  first_value_miss m l e = rw e refl

  cached_miss :
      (m : Map dec vs) (l : List (Map dec vs))
      → m k ≡ none
      → first_value dec vs k l ≡ none
      → cached dec vs k (m ∷ l) ≡ m ∷ cached dec vs k l
  unfolding cached
  cached_miss m l e f = rw (e, f) refl

  cached_fill :
      (v : V) (m : Map dec vs) (l : List (Map dec vs))
      → m k ≡ none
      → first_value dec vs k l ≡ some v
      → cached dec vs k (m ∷ l) ≡ update dec m k (some v) ∷ cached dec vs k l
  unfolding cached
  cached_fill v m l e f = rw (e, f) refl

  map_insert_miss :
      (v : V) (m : Map dec vs)
      → m k ≡ none
      → map_insert dec vs k v m ≡ (true, update dec m k (some v))
  unfolding map_insert
  map_insert_miss v m e = rw (e, map_insert) refl

module _ {K V T : Type 0} (dec : Discrete K) (vs : Values V)
    (is_map : StateStore K V T → Map dec vs → Type 0) (refines : Refines dec vs is_map) (now n : ℕ)
    (h : Handler K V T) (s : Stack (suc n) K V T) (m m' : Map dec vs) (ms : List (Map dec vs))
    (e : is_map h.store m) (del : h.delegation ≡ true)
    (tiers : Tiers dec vs is_map n s (m' ∷ ms)) where
  abbrev up : Stack (suc n) K V T → Payload K V → Outcome (Reply V × Stack (suc n) K V T)
  up = effect T dec vs now (suc n)

  abbrev Level : Payload K V → Type 0
  Level p = Does dec vs is_map (suc n) p (m ∷ m' ∷ ms) (effect T dec vs now (suc (suc n)) (h, s) p)

  -- A delegated effect that the tiers answer.
  abbrev Answers : Payload K V → Type 0
  Answers p = Does dec vs is_map n p (m' ∷ ms) (effect T dec vs now (suc n) s p)

  load_above_nothing :
      (k : K) (g : Handler K V T) (s' : Stack (suc n) K V T)
      → delegate_state_effect vs up s (load k) ≡ ret (loaded dec vs none, s')
      → load_above dec vs up k g s ≡ ret ((nil, some no_such_key), g, s')
  unfolding load_above keep_above
  load_above_nothing k g s' d = rw d refl

  load_above_found :
      (k : K) (v : V) (g : Handler K V T) (s' : Stack (suc n) K V T)
      → g.delegation ≡ true
      → delegate_state_effect vs up s (load k) ≡ ret (loaded dec vs (some v), s')
      → load_above dec vs up k g s
        ≡ ret ((val v, none), record g { store = (store_insert_if_absent k v g.store).1 }, s')
  unfolding load_above keep_above
  load_above_found k v g s' delegates d = rw (d, delegates) refl

  load-Level_nothing :
      (k : K)
      → m k ≡ none
      → first_value dec vs k (m' ∷ ms) ≡ none
      → Answers (load k)
      → Level (load k)
  unfolding effect handle_load finish_load tiers_step
  load-Level_nothing k miss nothing d =
      let (found, left) = refines.loads k h.store m e in
      let answered =
        delegate_state_effect-ret vs up s (load k) _ d.returns
        ∙ ap (λ o. ret (loaded dec vs o, d.after)) nothing in
      let g : Handler K V T = record h { store = (store_load k h.store).1 } in
      let handled : effect T dec vs now (suc (suc n)) (h, s) (load k)
          ≡ ret (loaded dec vs none, (g, d.after)) =
        rw (found, miss, load_above_nothing k g d.after answered) refl in
      record {
        after = (g, d.after);
        returns =
            handled
            ∙ ap (λ o. ret (loaded dec vs o, (g, d.after)))
                (sym (first_value_miss dec vs k m (m' ∷ ms) miss ∙ nothing));
        is_left = rw (cached_miss dec vs k m (m' ∷ ms) miss nothing) (left, del, d.is_left);
      }

  load-Level_found :
      (k : K) (v : V)
      → m k ≡ none
      → first_value dec vs k (m' ∷ ms) ≡ some v
      → Answers (load k)
      → Level (load k)
  unfolding effect handle_load finish_load tiers_step
  load-Level_found k v miss there d =
      let (found, left) = refines.loads k h.store m e in
      let answered =
        delegate_state_effect-ret vs up s (load k) _ d.returns
        ∙ ap (λ o. ret (loaded dec vs o, d.after)) there in
      let kept = (refines.inserts k v (store_load k h.store).1 m left).1 in
      let g : Handler K V T = record h { store = (store_load k h.store).1 } in
      let g' : Handler K V T = record g { store = (store_insert_if_absent k v g.store).1 } in
      let handled : effect T dec vs now (suc (suc n)) (h, s) (load k)
          ≡ ret (loaded dec vs (some v), (g', d.after)) =
        rw (found, miss, load_above_found k v g d.after del answered) refl in
      record {
        after = (g', d.after);
        returns =
            handled
            ∙ ap (λ o. ret (loaded dec vs o, (g', d.after)))
                (sym (first_value_miss dec vs k m (m' ∷ ms) miss ∙ there));
        is_left =
            rw (cached_fill dec vs k v m (m' ∷ ms) miss there)
              (rw (map_insert_miss dec vs k v m miss) at kept, del, d.is_left);
      }

  load-Level_hit : (k : K) (v : V) → m k ≡ some v → Level (load k)
  unfolding effect handle_load finish_load tiers_step first_value cached
  load-Level_hit k v hit =
      let (found, left) = refines.loads k h.store m e in
      record {
        after = (record h { store = (store_load k h.store).1 }, s);
        returns = rw (found, hit) refl;
        is_left = rw hit (left, del, tiers);
      }

  pub load-Level : (k : K) → Answers (load k) → Level (load k)
  load-Level k d = elim (Option-cases (m k)) [
    | inr (v, hit) ↦ load-Level_hit k v hit
    | inl miss ↦ elim (Option-cases (first_value dec vs k (m' ∷ ms))) [
      | inl nothing ↦ load-Level_nothing k miss nothing d
      | inr (v, there) ↦ load-Level_found k v miss there d
    ]
  ]
