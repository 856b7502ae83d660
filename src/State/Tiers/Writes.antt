-- ===== src/State/Tiers/Writes.antt =====
-- An insertion through a delegating handler: its deferred function writes the value to the tiers
-- above, by an insertion or, after `Retry`, by a compare-and-swap of what they hold.
use effect_ive_go.Base.{
  ℕ, suc, ◌≡◌, ◌≢◌, refl, ap, ◌∙◌, sym, inl, inr, Bool, true, false, Option, none, some, List, [],
  ◌∷◌, map, Option-cases, Bool-cases, fun_ext, ite, if_pos, if_neg,
}
use effect_ive_go.Helper.{Outcome, ret, Err, get_typed_value_of, retry, retry_from}
use effect_ive_go.State.{
  Values, equals, Payload, load_wo_delegation, insert_if_absent, compare_and_swap, StateStore,
  store_insert_if_absent, update, holds,
}
use effect_ive_go.State.Memory.{Map, map_insert, map_swap, Refines}
use effect_ive_go.State.Delegate.{
  bool, Handler, delegate_state_effect-ret, swap_up, try_to_update, insert_delegated,
}
use effect_ive_go.State.Handler.{emit, handle_insert_if_absent}
use effect_ive_go.State.Stack.{Stack, effect}
use effect_ive_go.State.Single.{loaded, IsData}
use effect_ive_go.State.Tiers.{Identities, any_holds, tiers_step, Tiers, Does}

pub holds_of :
    {K V : Type 0} (vs : Values V) (k : K) (m : K → Option V) (c old : V)
    → m k ≡ some c
    → holds vs m k old ≡ vs.same c old
holds_of vs k m c old e = rw (e, holds) refl

module _ {K V : Type 0} (dec : Discrete K) (vs : Values V) (ids : Identities dec vs) (k : K)
    (new : V) where
  abbrev pub written : Map dec vs → Map dec vs
  written m = update dec m k (some new)

  pub written-same : (m : Map dec vs) → m k ≡ some new → written m ≡ m
  written-same m e = fun_ext (λ q. elim (dec k q) [
    | yes same ↦ if_pos (dec k q) same (some new) (m q) ∙ sym e ∙ ap m same
    | no other ↦ if_neg (dec k q) other (some new) (m q)
  ])

  pub written-at : (m : Map dec vs) → written m k ≡ some new
  written-at m = elim (dec k k) as (λ d. ite d (some new) (m k) ≡ some new) [
    | yes same ↦ refl
    | no other ↦ absurd (other refl)
  ]

  pub written-other : (m : Map dec vs) (q : K) → k ≢ q → written m q ≡ m q
  written-other m q other = if_neg (dec k q) other (some new) (m q)

  -- A swap of the value `old` that the innermost tier has leaves what was written to the others.
  swapped_written :
      (old : V) (m : Map dec vs)
      → equals vs old new ≡ false
      → (map_swap dec vs k old new (written m)).1 ≡ written m
  unfolding map_swap
  swapped_written old m other = elim (Bool-cases (vs.same new old)) [
    | inl t ↦
        let same : new ≡ old = ids.reflects new old t in
        let differ : vs.same old new ≡ false = sym (ids.plain old new) ∙ other in
        let bad : vs.same old new ≡ true = ap (λ v. vs.same v new) (sym same) ∙ ids.reflexive new in
        cc (differ, bad)
    | inr f ↦ let kept = holds_of vs k (written m) new old (written-at m) ∙ f in rw kept refl
  ]

  written_all :
      (ms : List (Map dec vs)) (old : V)
      → equals vs old new ≡ false
      → map (λ a. (map_swap dec vs k old new a).1) (map written ms) ≡ map written ms
  written_all [] old other = refl
  written_all (m ∷ ms) old other = rw (swapped_written old m other, written_all ms old other) refl

  pub map_insert_miss :
      (m : Map dec vs) → m k ≡ none → map_insert dec vs k new m ≡ (true, written m)
  unfolding map_insert
  map_insert_miss m e = rw (e, map_insert) refl

  pub map_insert_hit :
      (m : Map dec vs) (c : V) → m k ≡ some c → map_insert dec vs k new m ≡ (false, m)
  unfolding map_insert
  map_insert_hit m c e = rw (e, map_insert) refl

  pub tiers_step-insert :
      (m : Map dec vs) (ms : List (Map dec vs)) (r : Bool × Map dec vs)
      → map_insert dec vs k new m ≡ r
      → tiers_step dec vs (insert_if_absent k new) (m ∷ ms)
        ≡ ((bool r.0, none), r.1 ∷ map written ms)
  unfolding tiers_step
  tiers_step-insert m ms r e = ap (λ x. ((bool x.0, none), x.1 ∷ map written ms)) e

module _ {K V T : Type 0} (dec : Discrete K) (vs : Values V)
    (is_map : StateStore K V T → Map dec vs → Type 0) (ids : Identities dec vs) (now n : ℕ)
    (ih : (p : Payload K V) (s : Stack (suc n) K V T) (ms : List (Map dec vs))
      → IsData dec vs p
      → Tiers dec vs is_map n s ms
      → Does dec vs is_map n p ms (effect T dec vs now (suc n) s p))
    (k : K) (new : V) where
  -- The tiers after an attempt, which succeeds.
  record Updated (ms : List (Map dec vs)) (r : Outcome (Option Err × Stack (suc n) K V T))
      : Type 0 where
    after : Stack (suc n) K V T
    returns : r ≡ ret (none, after)
    is_left : Tiers dec vs is_map n after (map (written dec vs ids k new) ms)

  -- What the compare-and-swap of the tier's own value gives.
  tiers_step-swap :
      (c : V) (m : Map dec vs) (ms : List (Map dec vs))
      → m k ≡ some c
      → equals vs c new ≡ false
      → tiers_step dec vs (compare_and_swap k c new) (m ∷ map (written dec vs ids k new) ms)
        ≡ ((bool true, none), map (written dec vs ids k new) (m ∷ ms))
  unfolding tiers_step any_holds map_swap
  tiers_step-swap c m ms here other =
      rw (other, holds_of vs k m c c here ∙ ids.reflexive c)
        (ap (λ l. ((bool true, none), written dec vs ids k new m ∷ l))
          (written_all dec vs ids k new ms c other))

  swap_up-Updated :
      (c : V) (m : Map dec vs) (ms : List (Map dec vs)) (s : Stack (suc n) K V T)
      → m k ≡ some c
      → equals vs c new ≡ false
      → Tiers dec vs is_map n s (m ∷ map (written dec vs ids k new) ms)
      → Updated (m ∷ ms) (swap_up vs (effect T dec vs now (suc n)) k c new s)
  unfolding swap_up get_typed_value_of
  swap_up-Updated c m ms s here other t =
      let d = ih (compare_and_swap k c new) s (m ∷ map (written dec vs ids k new) ms) tt t in
      let spec = tiers_step-swap c m ms here other in
      let returned = d.returns ∙ ap (λ r. ret (r.0, d.after)) spec in
      record { after = d.after; returns = rw returned refl; is_left = rw spec at d.is_left }

  try_to_update-Updated :
      (c : V) (m : Map dec vs) (ms : List (Map dec vs)) (s : Stack (suc n) K V T)
      → m k ≡ some c
      → Tiers dec vs is_map n s (m ∷ map (written dec vs ids k new) ms)
      → Updated (m ∷ ms) (try_to_update vs (effect T dec vs now (suc n)) k new s)
  unfolding try_to_update tiers_step
  try_to_update-Updated c m ms s here t =
      let d = ih (load_wo_delegation k) s (m ∷ map (written dec vs ids k new) ms) tt t in
      let returned = d.returns ∙ ap (λ o. ret (loaded dec vs o, d.after)) here in
      elim (Bool-cases (equals vs c new)) [
        | inl same ↦
            let one : c ≡ new = ids.reflects c new (sym (ids.plain c new) ∙ same) in
            record {
              after = d.after;
              returns = rw (returned, same) refl;
              is_left = rw (written-same dec vs ids k new m (here ∙ ap some one)) d.is_left;
            }
        | inr other ↦
            let u = swap_up-Updated c m ms d.after here other d.is_left in
            record {
              after = u.after;
              returns = rw (returned, other) u.returns;
              is_left = u.is_left;
            }
      ]

  -- The first attempt of the deferred function's `Retry` succeeds.
  insert_delegated-Updated :
      (m : Map dec vs) (ms : List (Map dec vs)) (s : Stack (suc n) K V T)
      → Tiers dec vs is_map n s (m ∷ ms)
      → (s' : Stack (suc n) K V T) × (insert_delegated vs (effect T dec vs now (suc n)) k new s
          ≡ ret s')
        × Tiers dec vs is_map n s' (map (written dec vs ids k new) (m ∷ ms))
  unfolding insert_delegated get_typed_value_of retry retry_from
  insert_delegated-Updated m ms s t =
      let d = ih (insert_if_absent k new) s (m ∷ ms) tt t in
      let answered = delegate_state_effect-ret vs (effect T dec vs now (suc n)) s _ _ d.returns in
      elim (Option-cases (m k)) [
        | inl miss ↦
            let spec =
              tiers_step-insert dec vs ids k new m ms _ (map_insert_miss dec vs ids k new m miss) in
            let inserted = answered ∙ ap (λ r. ret (r.0, d.after)) spec in
            (d.after, rw inserted refl, rw spec at d.is_left)
        | inr (c, here) ↦
            let spec =
              tiers_step-insert dec vs ids k new m ms _
                (map_insert_hit dec vs ids k new m c here) in
            let refused = answered ∙ ap (λ r. ret (r.0, d.after)) spec in
            let u = try_to_update-Updated c m ms d.after here (rw spec at d.is_left) in
            (u.after, rw (refused, u.returns) refl, u.is_left)
      ]

  -- An insertion at a delegating handler above the tiers.
  pub insert-Level :
      (refines : Refines dec vs is_map) (h : Handler K V T) (m m' : Map dec vs)
      (ms : List (Map dec vs)) (s : Stack (suc n) K V T)
      → is_map h.store m
      → h.delegation ≡ true
      → Tiers dec vs is_map n s (m' ∷ ms)
      → Does dec vs is_map
          (suc n)
          (insert_if_absent k new)
          (m ∷ m' ∷ ms)
          (effect T dec vs now (suc (suc n)) (h, s) (insert_if_absent k new))
  unfolding effect handle_insert_if_absent tiers_step
  insert-Level refines h m m' ms s e del t =
      let (found, left) = refines.inserts k new h.store m e in
      let (s', returned, above) = insert_delegated-Updated m' ms s t in
      record {
        after = (
          emit now (insert_if_absent k new)
              (record h { store = (store_insert_if_absent k new h.store).1 }),
          s',
        );
        returns = rw (del, returned, found) refl;
        is_left = (left, del, above);
      }
