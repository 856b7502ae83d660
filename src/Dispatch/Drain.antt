-- ===== src/Dispatch/Drain.antt =====
-- What a worker holds can be finished, in order (effects/internal/handlers/worker_dispatcher.go).
use mathlib.Core.List.{append_assoc, append-nil}
use effect_ive_go.Base.{
  ℕ, ◌≡◌, refl, sym, ◌∙◌, false, Option, none, some, List, [], ◌∷◌, ◌++◌, get_elem?,
  get_elem?-set_same, Option-cases, inl, inr,
}
use effect_ive_go.Dispatch.{
  Worker, Dispatcher, Reach, here, next, Step, receive, finish, put, finish_one,
}
use effect_ive_go.Dispatch.Order.{held}

module _ {T : Type 0} (route : T → Option ℕ) where
  -- The worker `i` of `e` holds nothing and has not ended.
  abbrev pub IsFree : ℕ → Dispatcher T → Type 0
  IsFree i e =
      (w : Worker T) × (get_elem? e.workers i ≡ some w) × (held w ≡ []) × (w.exited ≡ false)

  Reach-after : {d e f : Dispatcher T} → Step route d e → Reach route e f → Reach route d f
  Reach-after s here = next here s
  Reach-after s (next r z) = next (Reach-after s r) z

  -- The step is one of the worker `i`.
  abbrev pub IsBy : {d e : Dispatcher T} → ℕ → Step route d e → Type 0
  IsBy i (receive j w m ms at_j o h e) = i ≡ j
  IsBy i (finish j w m at_j h) = i ≡ j
  IsBy i _ = ⊥

  abbrev pub AllBy : {d e : Dispatcher T} → ℕ → Reach route d e → Type 0
  AllBy i here = Unit
  AllBy i (next r s) = AllBy i r × IsBy i s

  AllBy-after :
      {d e f : Dispatcher T} (i : ℕ) (s : Step route d e) (r : Reach route e f)
      → IsBy i s
      → AllBy i r
      → AllBy i (Reach-after s r)
  unfolding Reach-after
  AllBy-after i s here own all_own = (tt, own)
  AllBy-after i s (next r z) own all_own = (AllBy-after i s r own all_own.0, all_own.1)

  drain_queue :
      (q : List T) (i : ℕ) (w : Worker T) (d : Dispatcher T)
      → get_elem? d.workers i ≡ some w
      → w.exited ≡ false
      → w.handling ≡ none
      → w.queued ≡ q
      → (e : Dispatcher T) × (r : Reach route d e) × AllBy i r
        × (e.handled ≡ d.handled ++ q)
        × IsFree i e
  drain_queue [] i w d at_i o h e = (d, here, tt, sym (append-nil _), (w, at_i, rw (h, e) refl, o))
  drain_queue (m ∷ q) i w d at_i o h e =
      let busy : Worker T = record w { queued = q; handling = some m } in
      let done : Worker T = record busy { handling = none } in
      let d1 = put i busy d in
      let d2 = finish_one m (put i done d1) in
      let at_busy : get_elem? d1.workers i ≡ some busy =
        get_elem?-set_same d.workers i busy w at_i in
      let (f, r, own, log, free) =
        drain_queue q i done d2 (get_elem?-set_same d1.workers i done busy at_busy) o refl refl in
      (
        f,
        Reach-after (receive i w m q at_i o h e) (Reach-after (finish i busy m at_busy refl) r),
        AllBy-after i (receive i w m q at_i o h e) (Reach-after (finish i busy m at_busy refl) r)
            refl (AllBy-after i (finish i busy m at_busy refl) r refl own),
        log ∙ append_assoc d.handled (m ∷ []) q,
        free,
      )

  -- From any state of a dispatcher, a worker that has not ended can finish all that it holds, in
  -- order, by steps that are all its own, and is then free for more.
  pub worker_drains :
      (i : ℕ) (w : Worker T) (d : Dispatcher T)
      → get_elem? d.workers i ≡ some w
      → w.exited ≡ false
      → (e : Dispatcher T) × (r : Reach route d e) × AllBy i r
        × (e.handled ≡ d.handled ++ held w)
        × IsFree i e
  worker_drains i w d at_i o = elim (Option-cases w.handling) [
    | inl h ↦ rw h (drain_queue w.queued i w d at_i o h refl)
    | inr (m, h) ↦
        let done : Worker T = record w { handling = none } in
        let d1 = finish_one m (put i done d) in
        let (f, r, own, log, free) =
          drain_queue w.queued i done d1 (get_elem?-set_same d.workers i done w at_i) o refl refl in
        (
          f,
          Reach-after (finish i w m at_i h) r,
          AllBy-after i (finish i w m at_i h) r refl own,
          rw h (log ∙ append_assoc d.handled (m ∷ []) w.queued),
          free,
        )
  ]
