-- ===== src/State/Events.antt =====
-- The events of a state handler: what it announces on its sink (the goroutines of
-- `stateHandler.handle`, effects/state/state.go).
use effect_ive_go.Base.{
  ℕ, zero, suc, ◌-◌, ◌≡◌, refl, ap, ◌∙◌, sym, subst, inl, inr, false, List, [], ◌∷◌, ◌++◌, length,
  length-append, take, ltb, if◌then◌else◌, Bool-cases, arith,
}
use effect_ive_go.Helper.{Outcome, ret, ◌>>=◌}
use effect_ive_go.State.{Values, Payload, StateStore}
use effect_ive_go.State.Memory.{Map, Refines}
use effect_ive_go.State.Delegate.{Reply, Event, Handler, state_payload_with_now}
use effect_ive_go.State.Stack.{Stack, effect, run_sender}
use effect_ive_go.State.Single.{IsData, map_step, announces, announced, effect-Replies}

module _ {A : Type 0} where
  append_assoc_one : (xs ys : List A) (x : A) → (xs ++ x ∷ []) ++ ys ≡ xs ++ x ∷ ys
  append_assoc_one [] ys x = refl
  append_assoc_one (z ∷ xs) ys x = ap (◌∷◌ z) (append_assoc_one xs ys x)

  append_nil : (xs : List A) → xs ++ [] ≡ xs
  append_nil [] = refl
  append_nil (x ∷ xs) = ap (◌∷◌ x) (append_nil xs)

  take_nil : (n : ℕ) → take {A = A} n [] ≡ []
  take_nil zero = refl
  take_nil (suc n) = refl

  -- A sink of the capacity `room` after a sender that does not wait.
  abbrev offered : ℕ → List A → A → List A
  offered room sink e = if ltb (length sink) room then sink ++ e ∷ [] else sink

  offered-take :
      (room : ℕ) (sink es : List A) (e : A)
      → offered room sink e ++ take (room - length (offered room sink e)) es
        ≡ sink ++ take (room - length sink) (e ∷ es)
  offered-take room sink es e = elim (Bool-cases (ltb (length sink) room)) [
    | inl free ↦
        let one = length-append sink (e ∷ []) in
        let left : room - length sink ≡ suc (room - length (sink ++ e ∷ [])) =
          ground (arith, one, free) in
        rw (free, left) (append_assoc_one sink (take (room - length (sink ++ e ∷ [])) es) e)
    | inr full ↦
        let none_left : room - length sink ≡ 0 = ground (arith, full) in rw (full, none_left) refl
  ]

module _ {K V T : Type 0} where
  -- The first `n` senders run, each when it is the first.
  abbrev pub run_senders : ℕ → Handler K V T → Handler K V T
  run_senders zero h = h
  run_senders (suc n) h = run_senders n (run_sender 0 h)

  run_sender-first :
      (h : Handler K V T) (e : Event K V) (es : List (Event K V))
      → h.senders ≡ e ∷ es
      → run_sender 0 h ≡ record h { senders = es; sink = offered h.sink_cap h.sink e }
  unfolding run_sender
  run_sender-first h e es same = rw same refl

  run_senders-sink :
      (es : List (Event K V)) (h : Handler K V T)
      → h.senders ≡ es
      → ((run_senders (length es) h).senders ≡ [])
        × ((run_senders (length es) h).sink ≡ h.sink ++ take (h.sink_cap - length h.sink) es)
  run_senders-sink [] h same =
      (same, sym (ap (◌++◌ h.sink) (take_nil (h.sink_cap - length h.sink)) ∙ append_nil h.sink))
  run_senders-sink (e ∷ es) h same =
      let next : Handler K V T = record h { senders = es; sink = offered h.sink_cap h.sink e } in
      let (none_left, sink) = run_senders-sink es next refl in
      subst
        (λ (g : Handler K V T).
          ((run_senders (length es) g).senders ≡ [])
          × ((run_senders (length es) g).sink
              ≡ h.sink ++ take (h.sink_cap - length h.sink) (e ∷ es)))
        (sym (run_sender-first h e es same)) (none_left, sink ∙ offered-take h.sink_cap h.sink es e)

module _ {K V T : Type 0} (dec : Discrete K) (vs : Values V) where
  -- Effects in a row, each at its time, on one handler.
  abbrev pub timed_run :
      List (ℕ × Payload K V) → Stack 1 K V T → Outcome (List (Reply V) × Stack 1 K V T)
  timed_run [] s = ret ([], s)
  timed_run ((now, p) ∷ ps) s =
      effect T dec vs now 1 s p >>= λ r. timed_run ps r.1 >>= λ rest. ret (r.0 ∷ rest.0, rest.1)

module _ {K V : Type 0} (dec : Discrete K) (vs : Values V) where
  -- The events of effects in a row on the map: one for each insertion, refused or not, and one for
  -- each compare-and-swap and compare-and-delete that changed the map, at its time.
  abbrev pub events_of : List (ℕ × Payload K V) → Map dec vs → List (Event K V)
  events_of [] m = []
  events_of ((now, p) ∷ ps) m =
      let rest = events_of ps (map_step dec vs p m).1 in
      if announces dec vs p m then state_payload_with_now now p ∷ rest else rest

  announced-append :
      (now : ℕ) (p : Payload K V) (m : Map dec vs) (ss rest : List (Event K V))
      → announced dec vs now p m ss ++ rest
        ≡ ss ++ (if announces dec vs p m then state_payload_with_now now p ∷ rest else rest)
  unfolding announced
  announced-append now p m ss rest = elim (Bool-cases (announces dec vs p m)) [
    | inl b ↦ rw b (append_assoc_one ss rest (state_payload_with_now now p))
    | inr b ↦ rw b refl
  ]

  abbrev pub AllTimed : List (ℕ × Payload K V) → Type 0
  AllTimed [] = Unit
  AllTimed ((now, p) ∷ ps) = IsData dec vs p × AllTimed ps

module _ {K V T : Type 0} (dec : Discrete K) (vs : Values V)
    (is_map : StateStore K V T → Map dec vs → Type 0) (refines : Refines dec vs is_map) where
  timed_run-senders :
      (ps : List (ℕ × Payload K V)) (h : Handler K V T) (m : Map dec vs)
      → AllTimed dec vs ps
      → is_map h.store m
      → h.delegation ≡ false
      → (replies : List (Reply V)) × (h' : Handler K V T) × (timed_run dec vs ps (h, tt)
          ≡ ret (replies, (h', tt)))
        × (h'.senders ≡ h.senders ++ events_of dec vs ps m)
        × (h'.sink ≡ h.sink)
        × (h'.sink_cap ≡ h.sink_cap)
  timed_run-senders [] h m d e alone = ([], h, refl, sym (append_nil h.senders), refl, refl)
  timed_run-senders ((now, p) ∷ ps) h m d e alone =
      let r = effect-Replies dec vs is_map refines now h m e alone p d.0 in
      let (replies, h', rest, senders, sink, cap_) =
        timed_run-senders ps r.after (map_step dec vs p m).1 d.1 r.is_left r.alone in
      (
        (map_step dec vs p m).0 ∷ replies,
        h',
        rw (r.returns, ◌>>=◌, rest) refl,
        senders
            ∙ ap (λ ss. ss ++ events_of dec vs ps (map_step dec vs p m).1) r.emitted
            ∙ announced-append dec vs now p m h.senders _,
        sink ∙ r.sink_kept.0,
        cap_ ∙ r.sink_kept.1,
      )

  -- A handler without delegation, with no event under way, over an atomic store: any loads,
  -- insertions, compare-and-swaps and compare-and-deletes in a row, each at its time, start one
  -- goroutine for each insertion, refused or not, and for each compare-and-swap and
  -- compare-and-delete that changed an entry, in order, with the interval of its time; and when
  -- these have run in that order, the sink has, after what it had, as many of their events as it
  -- had room for, the first ones, and the others are lost.
  pub timed_run-events :
      (ps : List (ℕ × Payload K V)) (h : Handler K V T) (m : Map dec vs)
      → AllTimed dec vs ps
      → is_map h.store m
      → h.delegation ≡ false
      → h.senders ≡ []
      → (replies : List (Reply V)) × (h' : Handler K V T) × (timed_run dec vs ps (h, tt)
          ≡ ret (replies, (h', tt)))
        × (h'.senders ≡ events_of dec vs ps m)
        × ((run_senders (length (events_of dec vs ps m)) h').senders ≡ [])
        × ((run_senders (length (events_of dec vs ps m)) h').sink
            ≡ h.sink ++ take (h.sink_cap - length h.sink) (events_of dec vs ps m))
  timed_run-events ps h m d e alone idle =
      let (replies, h', ran, senders, sink, room) = timed_run-senders ps h m d e alone in
      let all = senders ∙ ap (λ ss. ss ++ events_of dec vs ps m) idle in
      let (none_left, sent) = run_senders-sink (events_of dec vs ps m) h' all in
      (
        replies,
        h',
        ran,
        all,
        none_left,
        sent
            ∙ ap (λ l. l ++ take (h'.sink_cap - length l) (events_of dec vs ps m)) sink
            ∙ ap (λ c. h.sink ++ take (c - length h.sink) (events_of dec vs ps m)) room,
      )
