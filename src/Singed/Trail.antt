-- ===== src/Singed/Trail.antt =====
-- `trailPoison` of examples/singed_poison_trail/singed.go, over nested state handlers. `decimal` is
-- fmt's `%d`, and `rate` the reduction rate 0.8; the unit of time is the nanosecond.
mod Tests
use effect_ive_go.Base.{
  ℕ, ◌≡◌, refl, ◌⊎◌, inl, inr, Bool, true, false, none, some, Option-cases, List, [], ◌∷◌, ◌++◌,
}
use effect_ive_go.Helper.{Outcome, ret, ◌>>=◌, Typed, ok, failed, Err}
use effect_ive_go.State.{Values, StateStore, update}
use effect_ive_go.State.Delegate.{Handler}
use effect_ive_go.State.Stack.{Stack, insert_if_absent_with_ttl_effect}
use effect_ive_go.State.Memory.{Map, Refines}
use effect_ive_go.State.Fades.{FadesAt, Inserted-FadesAt, insert-Inserted, insert-present}
use effect_ive_go.Singed.{Words, key_of_adjust_hp}

-- What is logged, each with "value" `true`.
pub data Line : Type 0 where
  fail_to_insert : List ℕ → Err → Line
  already_exist : List ℕ → Line

-- The two tests, which are not alternatives: after an error `inserted` is false.
unfoldable pub lines : List ℕ → Typed Bool → List Line
lines key (ok true) = []
lines key (ok false) = already_exist key ∷ []
lines key (failed e) = fail_to_insert key e ∷ already_exist key ∷ []

module _ (decimal : ℕ → List ℕ) (words : Words) where
  -- `made` is the clock's reading for the key.
  unfoldable pub poison_key : ℕ → ℕ → List ℕ
  unfolding key_of_adjust_hp
  poison_key coord made = key_of_adjust_hp words coord ++ 47 ∷ decimal made

  module _ {V : Type 0} (T : Type 0) (dec : Discrete (List ℕ)) (vs : Values V) where
    unfoldable pub trail_poison :
        V → ℕ → ℕ → ℕ → (n : ℕ) → Stack n (List ℕ) V T → Outcome (List Line × Stack n (List ℕ) V T)
    unfolding poison_key insert_if_absent_with_ttl_effect lines
    trail_poison rate coord made now n s =
        let key = poison_key coord made in
        insert_if_absent_with_ttl_effect T dec vs now n key rate 325000000 s >>= λ r.
        ret (lines key r.0, r.1)

  module _ {V T : Type 0} (dec : Discrete (List ℕ)) (vs : Values V)
      (is_map : StateStore (List ℕ) V T → Map dec vs → Type 0) (refines : Refines dec vs is_map)
      (rate zero_ : V) (coord made now later : ℕ) (h : Handler (List ℕ) V T) (m : Map dec vs) where
    -- Either the key of the poison is absent, and nothing is logged, the map has the rate under
    -- that key and is else `m`, and a timer waits that restores `m`, or the key is present, and one
    -- line is logged and the map is `m`.
    abbrev pub Trailed : Type 0
    Trailed =
        ((m (poison_key coord made) ≡ none)
          × (h' : Handler (List ℕ) V T) × (place : ℕ) × (trail_poison T dec vs rate coord made now 1
                (h, tt)
              ≡ ret ([], (h', tt)))
          × is_map h'.store (update dec m (poison_key coord made) (some rate))
          × FadesAt dec vs is_map refines now (poison_key coord made) rate 325000000 zero_ later m
              h' place)
        ⊎ ((c : V) × (m (poison_key coord made) ≡ some c)
            × (h' : Handler (List ℕ) V T) × (trail_poison T dec vs rate coord made now 1 (h, tt)
                ≡ ret (already_exist (poison_key coord made) ∷ [], (h', tt)))
            × is_map h'.store m)

    -- Poison laid over a handler without delegation and with none above, whose store is the atomic
    -- map `m`: where its key is absent, nothing is logged, the map has the rate under that key and
    -- is else `m`, and a timer waits, which restores every entry of `m` when it fires 325
    -- milliseconds later or after that, and does nothing before. Where the key is present, one line
    -- is logged and the map is `m`. Values equal themselves.
    pub trail_poison-Trailed :
        is_map h.store m → h.delegation ≡ false → ((v : V) → vs.same v v ≡ true) → Trailed
    unfolding trail_poison lines
    trail_poison-Trailed e alone self =
        let key = poison_key coord made in
        elim (Option-cases (m key)) [
          | inl free ↦
              let i =
                insert-Inserted dec vs is_map refines now key rate 325000000 h m e alone free in
              inl (
                free,
                i.after,
                i.place,
                rw (i.returns, ◌>>=◌) refl,
                i.is_left,
                Inserted-FadesAt dec vs is_map refines now key rate 325000000 zero_ later h m i self
                    free,
              )
          | inr (c, there) ↦
              let (h', run, left, _) =
                insert-present dec vs is_map refines now key rate 325000000 h m e alone c there in
              inr (c, there, h', rw (run, ◌>>=◌) refl, left)
        ]
