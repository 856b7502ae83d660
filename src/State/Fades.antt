-- ===== src/State/Fades.antt =====
-- `InsertIfAbsentWithTTLEffect` of effects/state/state.go and the timer that it starts.
use effect_ive_go.Base.{
  ap, subst, Bool, ℕ, ◌+◌, ◌≡◌, refl, sym, ◌∙◌, ◌⊎◌, inl, inr, true, false, none, some, List, [],
  ◌∷◌, ◌++◌, get_elem?, length, leb, if_neg, ite,
}
use effect_ive_go.Helper.{ret, ◌>>=◌, ok, get_typed_value_of}
use effect_ive_go.State.{Values, insert_if_absent, set_ttl, StateStore, update}
use effect_ive_go.State.Delegate.{Handler, Timer, bool}
use effect_ive_go.State.Handler.{handle, handle_set_ttl}
use effect_ive_go.State.Stack.{
  effect, fire, insert_if_absent_effect, insert_if_absent_with_ttl_effect,
}
use effect_ive_go.State.Memory.{Map, Refines, map_insert}
use effect_ive_go.State.Single.{Replies, effect-Replies, map_step}
use effect_ive_go.State.Expiry.{fire-Expired}

get_elem?-last : {A : Type 0} (xs : List A) (x : A) → get_elem? (xs ++ x ∷ []) (length xs) ≡ some x
get_elem?-last [] x = refl
get_elem?-last (y ∷ xs) x = get_elem?-last xs x

module _ {K V T : Type 0} (dec : Discrete K) (vs : Values V)
    (is_map : StateStore K V T → Map dec vs → Type 0) (refines : Refines dec vs is_map) (now : ℕ)
    (k : K) (v : V) (ttl : ℕ) where
  abbrev timer_of : Timer K
  timer_of = record { key = k; deadline = now + ttl; waiting = true }

  abbrev with_timer : Handler K V T → Handler K V T
  with_timer h = record h {
    clocks = h.clocks ++ timer_of ∷ [];
    timers = λ q. ite (dec k q) (some (length h.clocks)) (h.timers q);
  }

  set_ttl-timer :
      (h : Handler K V T)
      → effect T dec vs now 1 (h, tt) (set_ttl k ttl) ≡ ret ((bool true, none), (with_timer h, tt))
  unfolding effect handle handle_set_ttl
  set_ttl-timer h = refl

  -- The result of the insertion and its handler; with a timer that is the last one, if it inserted.
  pub record Inserted (h : Handler K V T) (m : Map dec vs) : Type 0 where
    pub after : Handler K V T
    pub place : ℕ
    pub returns :
        insert_if_absent_with_ttl_effect T dec vs now 1 k v ttl (h, tt) ≡ ret (ok true, (after, tt))
    pub is_left : is_map after.store (update dec m k (some v))
    pub alone : after.delegation ≡ false
    pub timed :
        get_elem? after.clocks place
        ≡ some (record { key = k; deadline = now + ttl; waiting = true })

  module _ (h : Handler K V T) (m : Map dec vs) (e : is_map h.store m)
      (alone : h.delegation ≡ false) where
    insertion :
        Replies dec vs is_map refines now
          (insert_if_absent k v)
          h
          m
          (effect T dec vs now 1 (h, tt) (insert_if_absent k v))
    insertion = effect-Replies dec vs is_map refines now h m e alone (insert_if_absent k v) tt

    stepped :
        (r : Bool × Map dec vs)
        → map_insert dec vs k v m ≡ r
        → (effect T dec vs now 1 (h, tt) (insert_if_absent k v)
            ≡ ret ((bool r.0, none), (insertion.after, tt)))
          × is_map insertion.after.store r.1
    unfolding map_step
    stepped r same = (
      insertion.returns ∙ ap (λ q. ret ((bool q.0, none), (insertion.after, tt))) same,
      subst (λ q. is_map insertion.after.store q.1) same insertion.is_left,
    )

    pub insert-Inserted : m k ≡ none → Inserted h m
    unfolding map_insert insert_if_absent_with_ttl_effect insert_if_absent_effect get_typed_value_of
    insert-Inserted free =
        let (run, left) = stepped (true, update dec m k (some v)) (rw (map_insert, free) refl) in
        record {
          after = with_timer insertion.after;
          place = length insertion.after.clocks;
          returns =
              rw (run, ◌>>=◌)
                (ap (λ x. x >>= λ u. ret (ok true, u.1)) (set_ttl-timer insertion.after));
          is_left = left;
          alone = insertion.alone;
          timed = get_elem?-last insertion.after.clocks timer_of;
        }

    pub insert-present :
        (c : V)
        → m k ≡ some c
        → (h' : Handler K V T) × (insert_if_absent_with_ttl_effect T dec vs now 1 k v ttl (h, tt)
            ≡ ret (ok false, (h', tt)))
          × is_map h'.store m
          × (h'.delegation ≡ false)
    unfolding map_insert insert_if_absent_with_ttl_effect insert_if_absent_effect get_typed_value_of
    insert-present c there =
        let (run, left) = stepped (false, m) (rw (map_insert, there) refl) in
        (insertion.after, rw (run, ◌>>=◌) refl, left, insertion.alone)

  -- What the timer leaves that fires at the time `later`: when it is due the map is `m` again, and
  -- nothing changes before.
  abbrev pub FadesAt : V → ℕ → Map dec vs → Handler K V T → ℕ → Type 0
  FadesAt zero_ later m h place =
      ((leb (now + ttl) later ≡ true)
        × (h' : Handler K V T) × (m' : Map dec vs) × (fire dec vs (effect T dec vs later 0) zero_
              later place h tt
            ≡ ret (h', tt))
        × is_map h'.store m'
        × ((q : K) → m' q ≡ m q))
      ⊎ ((leb (now + ttl) later ≡ false)
          × (fire dec vs (effect T dec vs later 0) zero_ later place h tt ≡ ret (h, tt)))

  restored :
      (m m' : Map dec vs)
      → m k ≡ none
      → m' k ≡ none
      → ((q : K) → (q ≡ k) ⊎ (m' q ≡ update dec m k (some v) q))
      → (q : K) → m' q ≡ m q
  restored m m' free gone others q = elim (dec k q) [
    | yes s ↦ subst (λ x. m' x ≡ m x) s (gone ∙ sym free)
    | no ne ↦ elim (others q) [
      | inl s ↦ absurd (ne (sym s))
      | inr kept ↦ kept ∙ if_neg (dec k q) ne (some v) (m q)
    ]
  ]

  pub Inserted-FadesAt :
      (zero_ : V) (later : ℕ) (h : Handler K V T) (m : Map dec vs) (i : Inserted h m)
      → ((v : V) → vs.same v v ≡ true)
      → m k ≡ none
      → FadesAt zero_ later m i.after i.place
  Inserted-FadesAt zero_ later h m i self free =
      elim (fire-Expired dec vs is_map refines later zero_ i.place timer_of i.after
        (update dec m k (some v)) i.timed i.is_left i.alone self) [
          | inl (due, h', m', run, left, (gone, others)) ↦
              inl (due, h', m', run, left, restored m m' free gone others)
          | inr (early, run) ↦ inr (early, run)
        ]
