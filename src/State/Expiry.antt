-- ===== src/State/Expiry.antt =====
-- The expiry of a key (`setTTL` of effects/state/state.go): what a timer that fires leaves.
use effect_ive_go.Base.{
  ℕ, ◌≡◌, refl, sym, ◌⊎◌, inl, inr, true, false, ◌&&◌, none, some, Option-cases, Bool-cases,
  get_elem?, set, leb, if_pos, if_neg, arith,
}
use effect_ive_go.Helper.{Outcome, ret, missing, fault, ◌>>=◌, get_typed_value_of}
use effect_ive_go.State.{Values, Payload, load, compare_and_delete, StateStore, holds}
use effect_ive_go.State.Delegate.{Handler, Timer, Reply, as_val}
use effect_ive_go.State.Handler.{handle}
use effect_ive_go.State.Stack.{Stack, effect, expire, fire, fire_timer, or_zero}
use effect_ive_go.State.Memory.{Map, Refines, map_delete}
use effect_ive_go.State.Single.{Replies, effect-Replies, map_step}

module _ {K V T : Type 0} where
  -- A handler's result, from that of the stack that it is alone in.
  abbrev stacked : Reply V × Handler K V T × Unit {0} → Outcome (Reply V × Stack 1 K V T)
  stacked r = ret (r.0, (r.1, r.2))

  unstacked :
      (o : Outcome (Reply V × Handler K V T × Unit {0})) (a : Reply V) (h : Handler K V T)
      → (o >>= stacked) ≡ ret (a, (h, tt))
      → o ≡ ret (a, h, tt)
  unstacked (ret (a', h', u)) a h e = cc e
  unstacked missing a h e = cc e
  unstacked fault a h e = cc e

module _ {K V T : Type 0} (dec : Discrete K) (vs : Values V)
    (is_map : StateStore K V T → Map dec vs → Type 0) (refines : Refines dec vs is_map)
    (now : ℕ) where
  abbrev pub nothing_above : Unit {0} → Payload K V → Outcome (Reply V × Unit {0})
  nothing_above = effect T dec vs now 0

  handled :
      (p : Payload K V) (m : Map dec vs) (h : Handler K V T)
      → (r : Replies dec vs is_map refines now p h m (effect T dec vs now 1 (h, tt) p))
      → handle dec vs nothing_above now h tt p ≡ ret ((map_step dec vs p m).0, r.after, tt)
  unfolding effect
  handled p m h r = unstacked _ _ _ r.returns

  -- The key is gone, and no other entry differs.
  abbrev pub Expired : K → Map dec vs → Map dec vs → Type 0
  Expired k m m' = (m' k ≡ none) × ((q : K) → (q ≡ k) ⊎ (m' q ≡ m q))

  delete-Expired :
      (k : K) (old : V) (m : Map dec vs)
      → ((v : V) → vs.same v v ≡ true)
      → (m k ≡ none) ⊎ (m k ≡ some old)
      → Expired k m (map_delete dec vs k old m).1
  unfolding map_delete
  delete-Expired k old m self (inl e) =
      let f : holds vs m k old ≡ false = ground (arith, e) in rw f (e, λ q. inr refl)
  delete-Expired k old m self (inr e) =
      let f : holds vs m k old ≡ true = ground (arith, e, self old) in
      rw f (
        if_pos (dec k k) refl none (m k),
        λ q. elim (dec k q) [ yes s ↦ inl (sym s) | no ne ↦ inr (if_neg (dec k q) ne none (m q)) ],
      )

  -- The value that the load returns, where the key has one.
  seen : V → K → Map dec vs → V
  seen zero_ k m = or_zero zero_ (get_typed_value_of as_val (map_step dec vs (load k) m).0)

  seen-current : (zero_ : V) (k : K) (m : Map dec vs) → (m k ≡ none) ⊎ (m k ≡ some (seen zero_ k m))
  unfolding seen map_step get_typed_value_of
  seen-current zero_ k m = elim (Option-cases (m k)) [
    | inl e ↦ inl e
    | inr (v, e) ↦ inr (rw e refl)
  ]

  left_by-map_delete :
      (k : K) (old : V) (m : Map dec vs) (s : StateStore K V T)
      → is_map s (map_step dec vs (compare_and_delete k old) (map_step dec vs (load k) m).1).1
      → is_map s (map_delete dec vs k old m).1
  unfolding map_step
  left_by-map_delete k old m s e = e

  -- The goroutine of `setTTL` after its timer fired.
  expire-Expired :
      (zero_ : V) (k : K) (h : Handler K V T) (m : Map dec vs)
      → is_map h.store m
      → h.delegation ≡ false
      → ((v : V) → vs.same v v ≡ true)
      → (h' : Handler K V T) × (m' : Map dec vs) × (expire dec vs nothing_above zero_ now k h tt
          ≡ ret (h', tt))
        × is_map h'.store m'
        × Expired k m m'
  unfolding expire seen
  expire-Expired zero_ k h m e alone self =
      let r = effect-Replies dec vs is_map refines now h m e alone (load k) tt in
      let first = handled (load k) m h r in
      let old = seen zero_ k m in
      let d =
        effect-Replies dec vs is_map refines now r.after (map_step dec vs (load k) m).1 r.is_left
          r.alone (compare_and_delete k old) tt in
      let second = handled (compare_and_delete k old) (map_step dec vs (load k) m).1 r.after d in
      (
        d.after,
        (map_delete dec vs k old m).1,
        rw (first, ◌>>=◌, second) refl,
        left_by-map_delete k old m d.after.store d.is_left,
        delete-Expired k old m self (seen-current zero_ k m),
      )

  -- A timer of a handler without delegation and with none above, whose store is the atomic map `m`,
  -- over values that equal themselves (so no NaN).
  -- If it is due and a goroutine waits for it, then without a panic its key is gone from the map,
  -- whatever value it had by then, and no other entry differs; otherwise nothing changes.
  pub fire-Expired :
      (zero_ : V) (i : ℕ) (timer : Timer K) (h : Handler K V T) (m : Map dec vs)
      → get_elem? h.clocks i ≡ some timer
      → is_map h.store m
      → h.delegation ≡ false
      → ((v : V) → vs.same v v ≡ true)
      → ((timer.waiting && leb timer.deadline now ≡ true)
          × (h' : Handler K V T) × (m' : Map dec vs) × (fire dec vs nothing_above zero_ now i h tt
              ≡ ret (h', tt))
          × is_map h'.store m'
          × Expired timer.key m m')
        ⊎ ((timer.waiting && leb timer.deadline now ≡ false)
            × (fire dec vs nothing_above zero_ now i h tt ≡ ret (h, tt)))
  unfolding fire fire_timer
  fire-Expired zero_ i timer h m at_i e alone self =
      elim (Bool-cases (timer.waiting && leb timer.deadline now)) [
        | inl due ↦
            let fired = record h { clocks = set h.clocks i (record timer { waiting = false }) } in
            let (h', m', run, left, gone) = expire-Expired zero_ timer.key fired m e alone self in
            inl (due, h', m', rw (at_i, due) run, left, gone)
        | inr early ↦ inr (early, rw (at_i, early) refl)
      ]
