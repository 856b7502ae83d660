-- ===== src/State/Overlay.antt =====
-- Loads through nested delegating handlers with in-memory stores.
use effect_ive_go.Base.{
  ℕ, zero, suc, ◌≡◌, refl, ap, ◌∙◌, inl, inr, Bool, true, Option, none, some, List, [], ◌∷◌,
  Option-cases, ◌⊎◌,
}
use effect_ive_go.Helper.{Outcome, ret, Err, no_effect_handler, no_such_key}
use effect_ive_go.State.{
  Values, Payload, load, StateStore, cas_impl, in_mem_store, update, store_load, settle,
  match_store, store_insert_if_absent,
}
use effect_ive_go.State.Delegate.{
  Dynamic, nil, val, Reply, Handler, delegate_state_effect, delegate_state_effect-ret,
  delegate_state_effect-missing,
}
use effect_ive_go.State.Handler.{handle_load, finish_load, load_above, keep_above}
use effect_ive_go.State.Stack.{Stack, effect}

module _ {K V : Type 0} (dec : Discrete K) (vs : Values V) where
  abbrev pub mem : (K → Option V) → StateStore K V (K → Option V)
  mem m = cas_impl (in_mem_store dec vs) m

  -- The handlers' stores are in memory and hold the maps `ms`.
  abbrev pub Memories : (n : ℕ) → Stack n K V (K → Option V) → List (K → Option V) → Type 0
  Memories zero s [] = Unit
  Memories zero s (m ∷ ms) = ⊥
  Memories (suc n) (h, s) [] = ⊥
  Memories (suc n) (h, s) (m ∷ ms) = (h.store ≡ mem m) × Memories n s ms

  -- Every handler but the outermost delegates.
  abbrev pub Delegating : (n : ℕ) → Stack n K V (K → Option V) → Type 0
  Delegating zero s = Unit
  Delegating (suc zero) s = Unit
  Delegating (suc (suc n)) (h, s) = (h.delegation ≡ true) × Delegating (suc n) s

  -- The first value on the way out.
  unfoldable pub first_value : K → List (K → Option V) → Option V
  first_value k [] = none
  first_value k (m ∷ ms) = elim (m k) [ some v ↦ some v | none ↦ first_value k ms ]

  -- The maps above the first value keep it too from then on.
  unfoldable pub cached : K → List (K → Option V) → List (K → Option V)
  unfolding first_value
  cached k [] = []
  cached k (m ∷ ms) =
      let rest = cached k ms in
      elim (m k) [
        | some v ↦ m ∷ ms
        | none ↦ elim (first_value k ms) [
          | some v ↦ update dec m k (some v) ∷ rest
          | none ↦ m ∷ rest
        ]
      ]

  -- The reply to a load.
  abbrev answer : Option V → Reply V
  answer (some v) = (val v, none)
  answer none = (nil, some no_such_key)

  store_load-mem : (k : K) (m : K → Option V) → store_load k (mem m) ≡ ((m k, none), mem m)
  unfolding store_load settle match_store in_mem_store
  store_load-mem k m = refl

  store_insert-mem :
      (k : K) (v : V) (m : K → Option V)
      → m k ≡ none
      → store_insert_if_absent k v (mem m) ≡ ((true, none), mem (update dec m k (some v)))
  unfolding store_insert_if_absent match_store in_mem_store
  store_insert-mem k v m e = rw e

  module _ (now n : ℕ) (k : K) (h : Handler K V (K → Option V)) (m : K → Option V) where
    abbrev above :
        Stack n K V (K → Option V) → Payload K V → Outcome (Reply V × Stack n K V (K → Option V))
    above = effect (K → Option V) dec vs now n

    -- The handlers above do not have the key either.
    load_above_none :
        (s s' : Stack n K V (K → Option V)) (d : Dynamic V) (e : Err)
        → delegate_state_effect vs above s (load k) ≡ ret ((d, some e), s')
        → load_above dec vs above k h s ≡ ret ((nil, some no_such_key), h, s')
    unfolding load_above keep_above
    load_above_none s s' d e p = rw p

    -- The handlers above have it: the value is kept here.
    load_above-some :
        (s s' : Stack n K V (K → Option V)) (v : V)
        → h.store ≡ mem m
        → m k ≡ none
        → h.delegation ≡ true
        → delegate_state_effect vs above s (load k) ≡ ret ((val v, none), s')
        → load_above dec vs above k h s
          ≡ ret ((val v, none), record h { store = mem (update dec m k (some v)) }, s')
    unfolding load_above keep_above
    load_above-some s s' v e miss delegates p =
        rw p (simp (delegates, e, store_insert-mem k v m miss))

    store_load-store : h.store ≡ mem m → store_load k h.store ≡ ((m k, none), mem m)
    store_load-store e = rw e (store_load-mem k m)

    handle_load-mem :
        (s : Stack n K V (K → Option V))
        → h.store ≡ mem m
        → handle_load dec vs above k h s
          ≡ finish_load dec vs above k (m k, none) (record h { store = mem m }) s
    unfolding handle_load
    handle_load-mem s e = rw (store_load-store e) refl

  -- What a load does to nested handlers with the maps `ms`.
  pub record Overlaid (n : ℕ) (k : K) (ms : List (K → Option V))
      (r : Outcome (Reply V × Stack n K V (K → Option V))) : Type 0 where
    pub after : Stack n K V (K → Option V)
    pub returns : r ≡ ret (answer (first_value k ms), after)
    pub maps : Memories n after (cached k ms)

  -- The answer of the levels above, as the deferred recovery leaves it.
  abbrev Above : (now n : ℕ) → K → Bool → Stack n K V (K → Option V) → List (K → Option V) → Type 0
  Above now n k delegation s ms =
      ((s' : Stack n K V (K → Option V)) × (e : Err) × (delegate_state_effect vs
            (effect (K → Option V) dec vs now n) s (load k)
          ≡ ret ((nil, some e), s'))
        × (first_value k ms ≡ none)
        × Memories n s' (cached k ms))
      ⊎ ((s' : Stack n K V (K → Option V)) × (v : V) × (delegate_state_effect vs
              (effect (K → Option V) dec vs now n) s (load k)
            ≡ ret ((val v, none), s'))
          × (first_value k ms ≡ some v)
          × Memories n s' (cached k ms)
          × (delegation ≡ true))

  module _ (now n : ℕ) (k : K) (h : Handler K V (K → Option V)) (s : Stack n K V (K → Option V))
      (m : K → Option V) (ms : List (K → Option V)) (e : h.store ≡ mem m) where
    abbrev Level : Type 0
    Level = Overlaid (suc n) k (m ∷ ms) (effect (K → Option V) dec vs now (suc n) (h, s) (load k))

    level_hit : (v : V) → m k ≡ some v → Memories n s ms → Level
    unfolding effect first_value cached finish_load
    level_hit v hit mems = record {
      after = (record h { store = mem m }, s);
      returns = rw (handle_load-mem now n k h m s e, hit) refl;
      maps = rw hit (refl, mems);
    }

    level_miss : m k ≡ none → Above now n k h.delegation s ms → Level
    unfolding effect first_value cached finish_load
    level_miss miss (inl (s', x, d, nothing, mems)) = record {
      after = (record h { store = mem m }, s');
      returns =
          rw
            (
              handle_load-mem now n k h m s e,
              miss,
              load_above_none now n k (record h { store = mem m }) m s s' nil x d,
              nothing,
            )
            refl;
      maps = rw (miss, nothing) (refl, mems);
    }
    level_miss miss (inr (s', v, d, found, mems, delegates)) = record {
      after = (record h { store = mem (update dec m k (some v)) }, s');
      returns =
          rw
            (
              handle_load-mem now n k h m s e,
              miss,
              load_above-some now n k (record h { store = mem m }) m s s' v refl miss delegates d,
              found,
            )
            refl;
      maps = rw (miss, found) (refl, mems);
    }

  -- With an answer of the handlers above, one more handler answers.
  level-Overlaid :
      (now n : ℕ) (k : K) (h : Handler K V (K → Option V)) (s : Stack n K V (K → Option V))
      (m : K → Option V) (ms : List (K → Option V))
      → h.store ≡ mem m
      → Memories n s ms
      → Above now n k h.delegation s ms
      → Overlaid (suc n) k (m ∷ ms) (effect (K → Option V) dec vs now (suc n) (h, s) (load k))
  level-Overlaid now n k h s m ms e mems up = elim (Option-cases (m k)) [
    | inl miss ↦ level_miss now n k h s m ms e miss up
    | inr (v, hit) ↦ level_hit now n k h s m ms e v hit mems
  ]

  Above-of_Overlaid :
      (now n : ℕ) (k : K) (s : Stack n K V (K → Option V)) (ms : List (K → Option V))
      → Overlaid n k ms (effect (K → Option V) dec vs now n s (load k))
      → Above now n k true s ms
  Above-of_Overlaid now n k s ms o =
      let up = effect (K → Option V) dec vs now n in
      let d =
        delegate_state_effect-ret vs up s (load k) (answer (first_value k ms), o.after) o.returns in
      elim (Option-cases (first_value k ms)) [
        | inl nothing ↦ inl (
          o.after,
          no_such_key,
          d ∙ ap (λ (a : Option V). ret (answer a, o.after)) nothing,
          nothing,
          o.maps,
        )
        | inr (v, found) ↦ inr (
          o.after,
          v,
          d ∙ ap (λ (a : Option V). ret (answer a, o.after)) found,
          found,
          o.maps,
          refl,
        )
      ]

  -- A load through nested handlers with in-memory stores, all of which but the outermost delegate:
  -- it returns the first value on the way out, or `ErrNoSuchKey` if there is none, and each level
  -- that the load passed keeps the value from then on; no other entry of any level changes.
  pub load-Overlaid :
      (now n : ℕ) (k : K) (s : Stack (suc n) K V (K → Option V)) (ms : List (K → Option V))
      → Memories (suc n) s ms
      → Delegating (suc n) s
      → Overlaid (suc n) k ms (effect (K → Option V) dec vs now (suc n) s (load k))
  unfolding first_value cached effect
  load-Overlaid now n k (h, s) [] mems del = absurd mems
  load-Overlaid now zero k (h, s) (m ∷ ms) mems del =
      level-Overlaid now zero k h s m ms mems.0 mems.1 (outermost s ms mems.1)
    where
      outermost :
          (s : Stack zero K V (K → Option V)) (ms : List (K → Option V))
          → Memories zero s ms
          → Above now zero k h.delegation s ms
      outermost s [] h' = inl (
        tt,
        no_effect_handler,
        delegate_state_effect-missing vs (effect (K → Option V) dec vs now zero) s (load k) refl,
        refl,
        tt,
      )
      outermost s (x ∷ xs) h' = absurd h'
  load-Overlaid now (suc n) k (h, s) (m ∷ ms) mems del =
      level-Overlaid now (suc n) k h s m ms mems.0 mems.1
        (rw del.0 (Above-of_Overlaid now (suc n) k s ms (load-Overlaid now n k s ms mems.1 del.1)))
