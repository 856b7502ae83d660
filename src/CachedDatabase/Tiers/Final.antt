-- ===== src/CachedDatabase/Tiers/Final.antt =====
-- All the trials of examples/cached_database/main.go, on an empty cache, over atomic stores.
use effect_ive_go.Base.{
  ℕ, ◌≡◌, ◌≢◌, refl, ◌∙◌, sym, true, false, Option, none, some, List, [], ◌∷◌, ◌++◌,
}
use effect_ive_go.State.{Values, StateStore}
use effect_ive_go.State.Memory.{Map, Refines}
use effect_ive_go.State.Stack.{Stack}
use effect_ive_go.State.Tiers.{Identities, Tiers}
use effect_ive_go.State.Tiers.Writes.{
  written, written-at, written-other, map_insert_miss, map_insert_hit,
}
use effect_ive_go.CachedDatabase.Tiers.{
  Line, insert_attempt, cas_attempt, final_state, Data, log_final_state, trials,
}
use effect_ive_go.CachedDatabase.Tiers.Trials.{Logged, insert-Logged, cas-Logged, load-Logged}

-- What the trials log, on an empty cache, whatever the database has.
abbrev pub trial_lines : {K V : Type 0} → Data K V → List (Line K V)
trial_lines x =
    insert_attempt x.key1 x.person1 true none
    ∷ insert_attempt x.key1 x.person2 false none
    ∷ insert_attempt x.key2 x.person2 true none
    ∷ insert_attempt x.key3 x.person3 true none
    ∷ insert_attempt x.key1 x.person3 false none
    ∷ cas_attempt x.key2 x.person2 x.person3 true none
    ∷ final_state x.key1 x.person1
    ∷ final_state x.key2 x.person3
    ∷ final_state x.key3 x.person3
    ∷ []

module _ {K V T : Type 0} (dec : Discrete K) (vs : Values V)
    (is_map : StateStore K V T → Map dec vs → Type 0) (refines : Refines dec vs is_map)
    (ids : Identities dec vs) (now : ℕ) where
  abbrev put : K → V → Map dec vs → Map dec vs
  put k v m = written dec vs ids k v m

  module _ (k : K) (v : V) (m : Map dec vs) where
    -- An entry of another key.
    beside : (q : K) (a : Option V) → k ≢ q → m q ≡ a → put k v m q ≡ a
    beside q a other e = written-other dec vs ids k v m q other ∙ e

    here : put k v m k ≡ some v
    here = written-at dec vs ids k v m

  module _ (x : Data K V) (o12 : x.key1 ≢ x.key2) (o13 : x.key1 ≢ x.key3) (o23 : x.key2 ≢ x.key3)
      (d : Map dec vs) where
    abbrev put1 : V → Map dec vs → Map dec vs
    put1 = put x.key1

    abbrev put2 : V → Map dec vs → Map dec vs
    put2 = put x.key2

    abbrev put3 : V → Map dec vs → Map dec vs
    put3 = put x.key3

    -- The maps of the cache.
    abbrev c1 : Map dec vs
    c1 = put1 x.person1 (λ k. none)

    abbrev c2 : Map dec vs
    c2 = put2 x.person2 c1

    abbrev c3 : Map dec vs
    c3 = put3 x.person3 c2

    abbrev pub c4 : Map dec vs
    c4 = put2 x.person3 c3

    -- The maps of the database.
    abbrev d3 : Map dec vs
    d3 = put2 x.person2 (put1 x.person2 (put1 x.person1 d))

    abbrev d5 : Map dec vs
    d5 = put1 x.person3 (put3 x.person3 d3)

    abbrev pub d6 : Map dec vs
    d6 = put2 x.person3 d5

    c3-at1 : c3 x.key1 ≡ some x.person1
    c3-at1 =
        beside x.key3 x.person3 c2 x.key1 _ (λ e. o13 (sym e))
          (beside x.key2 x.person2 c1 x.key1 _ (λ e. o12 (sym e))
            (here x.key1 x.person1 (λ k. none)))

    c3-at2 : c3 x.key2 ≡ some x.person2
    c3-at2 = beside x.key3 x.person3 c2 x.key2 _ (λ e. o23 (sym e)) (here x.key2 x.person2 c1)

    d5-at2 : d5 x.key2 ≡ some x.person2
    d5-at2 = beside x.key1 x.person3 (put3 x.person3 d3) x.key2 _ o12 (
        beside x.key3 x.person3 d3 x.key2 _ (λ e. o23 (sym e))
          (here x.key2 x.person2 (put1 x.person2 (put1 x.person1 d))))

    c4-at1 : c4 x.key1 ≡ some x.person1
    c4-at1 = beside x.key2 x.person3 c3 x.key1 _ (λ e. o12 (sym e)) c3-at1

    c4-at3 : c4 x.key3 ≡ some x.person3
    c4-at3 = beside x.key2 x.person3 c3 x.key3 _ o23 (here x.key3 x.person3 c2)

    pub cache_ends :
        (c4 x.key1 ≡ some x.person1) × (c4 x.key2 ≡ some x.person3) × (c4 x.key3 ≡ some x.person3)
    cache_ends = (c4-at1, here x.key2 x.person3 c3, c4-at3)

    pub database_ends :
        (d6 x.key1 ≡ some x.person3) × (d6 x.key2 ≡ some x.person3) × (d6 x.key3 ≡ some x.person3)
    database_ends = (
      beside x.key2 x.person3 d5 x.key1 _ (λ e. o12 (sym e))
          (here x.key1 x.person3 (put3 x.person3 d3)),
      here x.key2 x.person3 d5,
      beside x.key2 x.person3 d5 x.key3 _ o23
          (beside x.key1 x.person3 (put3 x.person3 d3) x.key3 _ o13 (here x.key3 x.person3 d3)),
    )

    final-Logged :
        (zero_ : V) (s : Stack 2 K V T) (out : List (Line K V))
        → Tiers dec vs is_map 1 s (c4 ∷ d6 ∷ [])
        → Logged dec vs is_map refines ids now c4 d6
            (((out ++ final_state x.key1 x.person1 ∷ []) ++ final_state x.key2 x.person3 ∷ [])
              ++ final_state x.key3 x.person3 ∷ [])
            (log_final_state T dec vs now zero_ (x.key1 ∷ x.key2 ∷ x.key3 ∷ []) (s, out))
    unfolding log_final_state
    final-Logged zero_ s out t =
        let load = load-Logged dec vs is_map refines ids now in
        let out1 = out ++ final_state x.key1 x.person1 ∷ [] in
        let out2 = out1 ++ final_state x.key2 x.person3 ∷ [] in
        load s c4 d6 out x.key1 t zero_ x.person1 (x.key2 ∷ x.key3 ∷ []) _ c4-at1 (λ s1 t1.
          load s1 c4 d6 out1 x.key2 t1 zero_ x.person3 (x.key3 ∷ []) _ (here x.key2 x.person3 c3)
            (λ s2 t2.
              load s2 c4 d6 out2 x.key3 t2 zero_ x.person3 [] _ c4-at3
                (λ s3 t3. record { after = s3; returns = refl; is_left = t3 })))

    pub trials-Logged :
        (zero_ : V) (s : Stack 2 K V T)
        → Tiers dec vs is_map 1 s ((λ k. none) ∷ d ∷ [])
        → Logged dec vs is_map refines ids now c4 d6
            (trial_lines x)
            (trials T dec vs now zero_ x (s, []))
    unfolding trials
    trials-Logged zero_ s t =
        let insert = insert-Logged dec vs is_map refines ids now in
        let o1 : List (Line K V) = insert_attempt x.key1 x.person1 true none ∷ [] in
        let o2 = o1 ++ insert_attempt x.key1 x.person2 false none ∷ [] in
        let o3 = o2 ++ insert_attempt x.key2 x.person2 true none ∷ [] in
        let o4 = o3 ++ insert_attempt x.key3 x.person3 true none ∷ [] in
        let o5 = o4 ++ insert_attempt x.key1 x.person3 false none ∷ [] in
        let o6 = o5 ++ cas_attempt x.key2 x.person2 x.person3 true none ∷ [] in
        let r1 =
          insert s (λ k. none) d [] x.key1 t x.person1 true c1
            (map_insert_miss dec vs ids x.key1 x.person1 (λ k. none) refl) in
        let r2 = insert r1.after c1 (put1 x.person1 d) o1 x.key1 r1.is_left x.person2 false c1 (
          map_insert_hit dec vs ids x.key1 x.person2 c1 x.person1
            (here x.key1 x.person1 (λ k. none))) in
        let r3 =
          insert r2.after c1 (put1 x.person2 (put1 x.person1 d)) o2 x.key2 r2.is_left x.person2 true
            c2
            (map_insert_miss dec vs ids x.key2 x.person2 c1
              (beside x.key1 x.person1 (λ k. none) x.key2 none o12 refl)) in
        let r4 = insert r3.after c2 d3 o3 x.key3 r3.is_left x.person3 true c3 (
          map_insert_miss dec vs ids x.key3 x.person3 c2 (
            beside x.key2 x.person2 c1 x.key3 none o23
              (beside x.key1 x.person1 (λ k. none) x.key3 none o13 refl))) in
        let r5 =
          insert r4.after c3 (put3 x.person3 d3) o4 x.key1 r4.is_left x.person3 false c3
            (map_insert_hit dec vs ids x.key1 x.person3 c3 x.person1 c3-at1) in
        let r6 =
          cas-Logged dec vs is_map refines ids now r5.after c3 d5 o5 x.key2 r5.is_left x.person2
            x.person3 c3-at2 d5-at2 in
        let r7 = final-Logged zero_ r6.after o6 r6.is_left in
        record {
          after = r7.after;
          returns =
              rw (r1.returns, r2.returns, r3.returns, r4.returns, r5.returns, r6.returns)
                r7.returns;
          is_left = r7.is_left;
        }
