-- ===== src/State/Single.antt =====
-- A handler alone, over any store that is the atomic map: every sequence of effects gets the
-- replies of the map.
use effect_ive_go.Base.{
  ℕ, zero, ◌≡◌, refl, inl, inr, Bool, true, false, Option, none, some, List, [], ◌∷◌, ◌++◌,
  if◌then◌else◌, Option-cases, Bool-cases, arith,
}
use effect_ive_go.Helper.{Outcome, ret, ◌>>=◌, no_such_key}
use effect_ive_go.State.{
  Values, equals, Payload, load, load_wo_delegation, insert_if_absent, compare_and_swap,
  compare_and_delete, set_ttl, reset_ttl, source, StateStore, store_load, store_insert_if_absent,
  store_compare_and_swap, store_compare_and_delete,
}
use effect_ive_go.State.Memory.{Map, map_insert, map_swap, map_delete, Refines}
use effect_ive_go.State.Delegate.{
  state_payload_with_now, Event, nil, bool, val, Reply, Handler, delegate_state_effect,
}
use effect_ive_go.State.Handler.{
  handle_load, handle_load_wo_delegation, finish_load, finish_load_wo_delegation, load_above,
  keep_above, handle_insert_if_absent, handle_compare_and_swap, handle_compare_and_delete,
  after_store, emit,
}
use effect_ive_go.State.Stack.{Stack, effect}

module _ {K V : Type 0} (dec : Discrete K) (vs : Values V) where
  -- The payloads that read or write entries.
  abbrev pub IsData : Payload K V → Type 0
  IsData (set_ttl k ttl) = ⊥
  IsData (reset_ttl k ttl) = ⊥
  IsData source = ⊥
  IsData _ = Unit

  abbrev pub AllData : List (Payload K V) → Type 0
  AllData [] = Unit
  AllData (p ∷ ps) = IsData p × AllData ps

  abbrev pub loaded : Option V → Reply V
  loaded (some v) = (val v, none)
  loaded none = (nil, some no_such_key)

  -- Whether a handler without delegation announces a payload by an event.
  unfoldable pub announces : Payload K V → Map dec vs → Bool
  unfolding equals map_swap map_delete
  announces (insert_if_absent k new) m = true
  announces (compare_and_swap k old new) m =
      if equals vs old new then false else (map_swap dec vs k old new m).0
  announces (compare_and_delete k old) m = (map_delete dec vs k old m).0
  announces _ m = false

  unfoldable pub announced : ℕ → Payload K V → Map dec vs → List (Event K V) → List (Event K V)
  unfolding announces
  announced now p m events =
      if announces p m then events ++ state_payload_with_now now p ∷ [] else events

  -- The specification: one payload on the atomic map.
  unfoldable pub map_step : Payload K V → Map dec vs → Reply V × Map dec vs
  unfolding equals map_insert map_swap map_delete
  map_step (load k) m = (loaded (m k), m)
  map_step (load_wo_delegation k) m = (loaded (m k), m)
  map_step (insert_if_absent k new) m = let r = map_insert dec vs k new m in ((bool r.0, none), r.1)
  map_step (compare_and_swap k old new) m =
      if equals vs old new
      then ((bool true, none), m)
      else (let r = map_swap dec vs k old new m in ((bool r.0, none), r.1))
  map_step (compare_and_delete k old) m =
      let r = map_delete dec vs k old m in ((bool r.0, none), r.1)
  map_step _ m = ((nil, none), m)

  unfoldable pub map_run : List (Payload K V) → Map dec vs → List (Reply V) × Map dec vs
  unfolding map_step
  map_run [] m = ([], m)
  map_run (p ∷ ps) m = let (r, m') = map_step p m in let (rs, m'') = map_run ps m' in (r ∷ rs, m'')

module _ {K V : Type 0} (T : Type 0) (dec : Discrete K) (vs : Values V) where
  -- The same payloads as effects, in a row.
  unfoldable pub effect_run :
      ℕ → (n : ℕ) → List (Payload K V) → Stack n K V T → Outcome (List (Reply V) × Stack n K V T)
  effect_run now n [] s = ret ([], s)
  effect_run now n (p ∷ ps) s = effect T dec vs now n s p >>= λ r.
      effect_run now n ps r.1 >>= λ rest. ret (r.0 ∷ rest.0, rest.1)

module _ {K V T : Type 0} (dec : Discrete K) (vs : Values V)
    (is_map : StateStore K V T → Map dec vs → Type 0) (refines : Refines dec vs is_map)
    (now : ℕ) where
  -- The handler after a payload, with no handler above.
  pub record Replies (p : Payload K V) (h : Handler K V T) (m : Map dec vs)
      (r : Outcome (Reply V × Stack 1 K V T)) : Type 0 where
    pub after : Handler K V T
    pub returns : r ≡ ret ((map_step dec vs p m).0, (after, tt))
    pub is_left : is_map after.store (map_step dec vs p m).1
    pub alone : after.delegation ≡ false
    pub emitted : after.senders ≡ announced dec vs now p m h.senders
    pub sink_kept : (after.sink ≡ h.sink) × (after.sink_cap ≡ h.sink_cap)

  module _ (h : Handler K V T) (m : Map dec vs) (e : is_map h.store m)
      (alone : h.delegation ≡ false) where
    abbrev above : Unit {0} → Payload K V → Outcome (Reply V × Unit {0})
    above = effect T dec vs now zero

    after_store-alone :
        (p : Payload K V) (b : Bool) (store : StateStore K V T)
        → after_store dec vs above now p h (b, none) store tt
          ≡ ret (
            (bool b, none),
            (if b then emit now p (record h { store = store }) else record h { store = store }),
            tt,
          )
    unfolding after_store
    after_store-alone p b store = ground arith

    load-Replies : (k : K) → Replies (load k) h m (effect T dec vs now 1 (h, tt) (load k))
    unfolding effect handle_load finish_load map_step load_above keep_above delegate_state_effect
        announced
    load-Replies k =
        let (found, left) = refines.loads k h.store m e in
        elim (Option-cases (m k)) [
          | inl miss ↦ record {
            after = record h { store = (store_load k h.store).1 };
            returns = rw (found, miss) refl;
            is_left = left;
            alone = alone;
            emitted = refl;
            sink_kept = (refl, refl);
          }
          | inr (v, hit) ↦ record {
            after = record h { store = (store_load k h.store).1 };
            returns = rw (found, hit) refl;
            is_left = left;
            alone = alone;
            emitted = refl;
            sink_kept = (refl, refl);
          }
        ]

    load_wo-Replies :
        (k : K)
        → Replies (load_wo_delegation k) h m (effect T dec vs now 1 (h, tt) (load_wo_delegation k))
    unfolding effect handle_load_wo_delegation finish_load_wo_delegation map_step announced
    load_wo-Replies k =
        let (found, left) = refines.loads k h.store m e in
        elim (Option-cases (m k)) [
          | inl miss ↦ record {
            after = record h { store = (store_load k h.store).1 };
            returns = rw (found, miss) refl;
            is_left = left;
            alone = alone;
            emitted = refl;
            sink_kept = (refl, refl);
          }
          | inr (v, hit) ↦ record {
            after = record h { store = (store_load k h.store).1 };
            returns = rw (found, hit) refl;
            is_left = left;
            alone = alone;
            emitted = refl;
            sink_kept = (refl, refl);
          }
        ]

    insert-Replies :
        (k : K) (new : V)
        → Replies
            (insert_if_absent k new)
            h
            m
            (effect T dec vs now 1 (h, tt) (insert_if_absent k new))
    unfolding effect handle_insert_if_absent map_step announced
    insert-Replies k new =
        let (found, left) = refines.inserts k new h.store m e in
        record {
          after =
              emit now (insert_if_absent k new)
                (record h { store = (store_insert_if_absent k new h.store).1 });
          returns = simp alone (rw found refl);
          is_left = left;
          alone = alone;
          emitted = refl;
          sink_kept = (refl, refl);
        }

    after_store_reply :
        (p : Payload K V) (b : Bool) (store : StateStore K V T) (m' : Map dec vs)
        → is_map store m'
        → map_step dec vs p m ≡ ((bool b, none), m')
        → announces dec vs p m ≡ b
        → Replies p h m
            (after_store dec vs above now p h (b, none) store tt >>= λ r. ret (r.0, (r.1, r.2)))
    unfolding announced
    after_store_reply p true store m' left spec says = record {
      after = emit now p (record h { store = store });
      returns = rw (after_store-alone p true store, spec) refl;
      is_left = rw spec left;
      alone = alone;
      emitted = rw says refl;
      sink_kept = (refl, refl);
    }
    after_store_reply p false store m' left spec says = record {
      after = record h { store = store };
      returns = rw (after_store-alone p false store, spec) refl;
      is_left = rw spec left;
      alone = alone;
      emitted = rw says refl;
      sink_kept = (refl, refl);
    }

    delete-Replies :
        (k : K) (old : V)
        → Replies
            (compare_and_delete k old)
            h
            m
            (effect T dec vs now 1 (h, tt) (compare_and_delete k old))
    unfolding effect handle_compare_and_delete map_step announced
    delete-Replies k old =
        let (found, left) = refines.deletes k old h.store m e in
        rw found (
          after_store_reply (compare_and_delete k old) (map_delete dec vs k old m).0
            (store_compare_and_delete vs k old h.store).1 (map_delete dec vs k old m).1 left refl
            refl)

    swap-Replies :
        (k : K) (old new : V)
        → Replies
            (compare_and_swap k old new)
            h
            m
            (effect T dec vs now 1 (h, tt) (compare_and_swap k old new))
    unfolding effect handle_compare_and_swap map_step announced
    swap-Replies k old new =
        let (found, left) = refines.swaps k old new h.store m e in
        elim (Bool-cases (equals vs old new)) [
          | inl same ↦ rw same (record {
            after = h;
            returns = rw same refl;
            is_left = rw same e;
            alone = alone;
            emitted = rw same refl;
            sink_kept = (refl, refl);
          })
          | inr other ↦
              rw (other, found)
                (after_store_reply (compare_and_swap k old new) (map_swap dec vs k old new m).0
                  (store_compare_and_swap vs k old new h.store).1 (map_swap dec vs k old new m).1
                  left (rw other refl) (rw other refl))
        ]

    pub effect-Replies :
        (p : Payload K V) → IsData dec vs p → Replies p h m (effect T dec vs now 1 (h, tt) p)
    effect-Replies (load k) d = load-Replies k
    effect-Replies (load_wo_delegation k) d = load_wo-Replies k
    effect-Replies (insert_if_absent k new) d = insert-Replies k new
    effect-Replies (compare_and_swap k old new) d = swap-Replies k old new
    effect-Replies (compare_and_delete k old) d = delete-Replies k old
    effect-Replies (set_ttl k ttl) d = absurd d
    effect-Replies (reset_ttl k ttl) d = absurd d
    effect-Replies source d = absurd d

  -- A handler without delegation and with no handler above it, whose store is the atomic map `m`:
  -- any loads, insertions, compare-and-swaps and compare-and-deletes, in a row, get the replies
  -- that the atomic map gives, none panics, and the store is left as the map is.
  pub effect_run-map_run :
      (ps : List (Payload K V)) (h : Handler K V T) (m : Map dec vs)
      → AllData dec vs ps
      → is_map h.store m
      → h.delegation ≡ false
      → (h' : Handler K V T) × (effect_run T dec vs now 1 ps (h, tt)
          ≡ ret ((map_run dec vs ps m).0, (h', tt)))
        × is_map h'.store (map_run dec vs ps m).1
  unfolding effect_run map_run
  effect_run-map_run [] h m d e alone = (h, refl, e)
  effect_run-map_run (p ∷ ps) h m d e alone =
      let r = effect-Replies h m e alone p d.0 in
      let (h', rest, left) =
        effect_run-map_run ps r.after (map_step dec vs p m).1 d.1 r.is_left r.alone in
      (h', rw (r.returns, ◌>>=◌, rest) refl, left)
