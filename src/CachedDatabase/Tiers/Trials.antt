-- ===== src/CachedDatabase/Tiers/Trials.antt =====
-- One step of the trials of examples/cached_database/main.go, over atomic stores.
use effect_ive_go.Base.{
  ℕ, ◌≡◌, refl, ap, ◌∙◌, sym, inl, inr, Bool, true, none, some, List, [], ◌∷◌, ◌++◌, Bool-cases,
}
use effect_ive_go.Helper.{Outcome, ret, get_typed_value_of}
use effect_ive_go.State.{
  Values, equals, load_wo_delegation, insert_if_absent, compare_and_swap, StateStore,
}
use effect_ive_go.State.Delegate.{bool}
use effect_ive_go.State.Memory.{Map, map_insert, map_swap, Refines}
use effect_ive_go.State.Single.{loaded}
use effect_ive_go.State.Stack.{Stack, insert_if_absent_effect, compare_and_swap_effect, load_effect}
use effect_ive_go.State.Tiers.{Identities, any_holds, tiers_step, Tiers}
use effect_ive_go.State.Tiers.Writes.{written, written-same, tiers_step-insert, holds_of}
use effect_ive_go.State.Tiers.Refinement.{effect-Does}
use effect_ive_go.CachedDatabase.Tiers.{
  Line, insert_attempt, cas_attempt, final_state, Run, insert_and_log, cas_and_log, log_final_state,
}

module _ {K V T : Type 0} (dec : Discrete K) (vs : Values V)
    (is_map : StateStore K V T → Map dec vs → Type 0) (refines : Refines dec vs is_map)
    (ids : Identities dec vs) (now : ℕ) where
  abbrev pub put : K → V → Map dec vs → Map dec vs
  put k v m = written dec vs ids k v m

  -- The cache and the database hold the maps `m` and `d`, after the lines `out`.
  pub record Logged (m d : Map dec vs) (out : List (Line K V)) (r : Outcome (Run T dec vs now))
      : Type 0 where
    pub after : Stack 2 K V T
    pub returns : r ≡ ret (after, out)
    pub is_left : Tiers dec vs is_map 1 after (m ∷ d ∷ [])

  module _ (s : Stack 2 K V T) (m d : Map dec vs) (out : List (Line K V)) (k : K)
      (t : Tiers dec vs is_map 1 s (m ∷ d ∷ [])) where
    pub insert-Logged :
        (v : V) (b : Bool) (m' : Map dec vs)
        → map_insert dec vs k v m ≡ (b, m')
        → Logged m'
            (put k v d)
            (out ++ insert_attempt k v b none ∷ [])
            (insert_and_log T dec vs now k v (s, out))
    unfolding insert_and_log insert_if_absent_effect get_typed_value_of
    insert-Logged v b m' e =
        let r =
          effect-Does dec vs is_map refines ids now 1 (insert_if_absent k v) s (m ∷ d ∷ []) tt t in
        let spec = tiers_step-insert dec vs ids k v m (d ∷ []) _ e in
        let returned = r.returns ∙ ap (λ x. ret (x.0, r.after)) spec in
        record { after = r.after; returns = rw returned refl; is_left = rw spec at r.is_left }

    tiers_step-swap :
        (old new : V)
        → m k ≡ some old
        → d k ≡ some old
        → tiers_step dec vs (compare_and_swap k old new) (m ∷ d ∷ [])
          ≡ ((bool true, none), put k new m ∷ put k new d ∷ [])
    unfolding tiers_step any_holds map_swap
    tiers_step-swap old new there behind = elim (Bool-cases (equals vs old new)) [
      | inl same ↦
          let one : some old ≡ some new =
            ap some (ids.reflects old new (sym (ids.plain old new) ∙ same)) in
          let kept = written-same dec vs ids k new m (there ∙ one) in
          let kept_behind = written-same dec vs ids k new d (behind ∙ one) in
          rw same (
            ap (λ l. ((bool true, none), l))
              (ap (λ a. a ∷ d ∷ []) (sym kept) ∙ ap (λ a. put k new m ∷ a ∷ []) (sym kept_behind)))
      | inr other ↦
          rw
            (
              other,
              holds_of vs k m old old there ∙ ids.reflexive old,
              holds_of vs k d old old behind ∙ ids.reflexive old,
            )
            refl
    ]

    pub cas-Logged :
        (old new : V)
        → m k ≡ some old
        → d k ≡ some old
        → Logged
            (put k new m)
            (put k new d)
            (out ++ cas_attempt k old new true none ∷ [])
            (cas_and_log T dec vs now k old new (s, out))
    unfolding cas_and_log compare_and_swap_effect get_typed_value_of
    cas-Logged old new there behind =
        let r =
          effect-Does dec vs is_map refines ids now 1 (compare_and_swap k old new) s (m ∷ d ∷ []) tt
            t in
        let spec = tiers_step-swap old new there behind in
        let returned = r.returns ∙ ap (λ x. ret (x.0, r.after)) spec in
        record { after = r.after; returns = rw returned refl; is_left = rw spec at r.is_left }

    pub load-Logged :
        (zero_ v : V) (keys : List K) (out' : List (Line K V))
        → m k ≡ some v
        → ((s : Stack 2 K V T)
            → Tiers dec vs is_map 1 s (m ∷ d ∷ [])
            → Logged m d out'
                (log_final_state T dec vs now zero_ keys (s, out ++ final_state k v ∷ [])))
        → Logged m d out' (log_final_state T dec vs now zero_ (k ∷ keys) (s, out))
    unfolding log_final_state load_effect get_typed_value_of tiers_step
    load-Logged zero_ v keys out' there rest =
        let r =
          effect-Does dec vs is_map refines ids now 1 (load_wo_delegation k) s (m ∷ d ∷ []) tt t in
        let returned = r.returns ∙ ap (λ o. ret (loaded dec vs o, r.after)) there in
        let l = rest r.after r.is_left in
        record { after = l.after; returns = rw returned l.returns; is_left = l.is_left }
