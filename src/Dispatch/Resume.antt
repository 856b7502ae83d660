-- ===== src/Dispatch/Resume.antt =====
-- The answer to a resumable effect (effects/internal/handlers/resumable.go): the worker's function
-- that sends one result on the message's channel and closes it, and the wait for it that the
-- `effect` functions of effects/state/state.go and effects/binding/binding.go share.
use effect_ive_go.Base.{
  ◌≡◌, refl, ap, ◌⊎◌, inl, inr, Bool, true, false, Option, none, some, if◌then◌else◌,
}
use effect_ive_go.Dispatch.{Sent, sent, gave_up, recovered}

-- `ResumeCh`, with its buffer of one result.
pub record ResumeCh (R : Type 0) : Type 0 where
  pub result : Option R
  pub closed : Bool

-- What `effect` returns: the result, or nil with `ctx.Err()`, which is an error or nil.
pub data Awaited (R : Type 0) : Type 0 where
  answer : R → Awaited R
  context_err : Awaited R
  nil_nil : Awaited R

module _ {R : Type 0} where
  abbrev pub new_resume_ch : ResumeCh R
  new_resume_ch = record { result = none; closed = false }

  -- The function of `NewResumableHandler`. If the handler's context is done, `select` may choose
  -- that case (`skip`) after `handleFn` has run; the channel is closed either way.
  unfoldable pub resume : Bool → R → ResumeCh R → ResumeCh R
  resume skip r ch = record { result = if skip then ch.result else some r; closed = true }

  -- `PerformEffect` returns the channel, or nil after it recovered from a panic.
  unfoldable pub perform_effect : Sent → Option (ResumeCh R)
  perform_effect sent = some new_resume_ch
  perform_effect gave_up = some new_resume_ch
  perform_effect recovered = none

  -- The cases of its `select` that can be taken, by whether the caller's context is done.
  pub data Await (done : Bool) : Option (ResumeCh R) → Awaited R → Type 0 where
    received : {ch : ResumeCh R} (r : R) → ch.result ≡ some r → Await done (some ch) (answer r)
    was_closed :
        {ch : ResumeCh R}
        → ch.result ≡ none
        → ch.closed ≡ true
        → Await done (some ch) (if done then context_err else nil_nil)
    was_done : {ch : Option (ResumeCh R)} → done ≡ true → Await done ch context_err

  after_skip :
      (skip done : Bool) (r : R)
      → (resume skip r new_resume_ch).result ≡ none
      → (done ≡ true) × (◌≡◌ {A = Awaited R} (if done then context_err else nil_nil) context_err)
        ⊎ (skip ≡ true)
          × (done ≡ false)
          × (◌≡◌ {A = Awaited R} (if done then context_err else nil_nil) nil_nil)
  unfolding resume
  after_skip true true r e = inl (refl, refl)
  after_skip true false r e = inr (refl, refl, refl)
  after_skip false done r e = cc e

  after_answer :
      (skip : Bool) (r q : R)
      → (resume skip r new_resume_ch).result ≡ some q
      → (skip ≡ false) × (q ≡ r)
  unfolding resume
  after_answer true r q e = cc e
  after_answer false r q e = (refl, cc e)

  resumed_cases :
      (skip done : Bool) (r : R) (ch : Option (ResumeCh R)) (a : Awaited R)
      → ch ≡ some (resume skip r new_resume_ch)
      → Await done ch a
      → ((a ≡ answer r) × (skip ≡ false))
        ⊎ ((a ≡ context_err) × (done ≡ true))
        ⊎ ((a ≡ nil_nil) × (skip ≡ true) × (done ≡ false))
  resumed_cases skip done r ch a same (received {ch = c} q e) =
      let is : c ≡ resume skip r new_resume_ch = cc same in
      let (s, is_r) = after_answer skip r q (rw is at e) in inl (ap answer is_r, s)
  resumed_cases skip done r ch a same (was_closed {ch = c} e x) =
      let is : c ≡ resume skip r new_resume_ch = cc same in
      elim (after_skip skip done r (rw is at e)) [
        | inl (d, z) ↦ inr (inl (z, d))
        | inr (s, d, z) ↦ inr (inr (z, s, d))
      ]
  resumed_cases skip done r ch a same (was_done d) = inr (inl (refl, d))

  -- The cases of a message that the worker has handled.
  resume_cases :
      (skip done : Bool) (r : R) (a : Awaited R)
      → Await done (some (resume skip r new_resume_ch)) a
      → ((a ≡ answer r) × (skip ≡ false))
        ⊎ ((a ≡ context_err) × (done ≡ true))
        ⊎ ((a ≡ nil_nil) × (skip ≡ true) × (done ≡ false))
  resume_cases skip done r a w = resumed_cases skip done r _ a refl w

  nil_cases :
      (done : Bool) (c : Option (ResumeCh R)) (a : Awaited R)
      → c ≡ none
      → Await done c a
      → (a ≡ context_err) × (done ≡ true)
  nil_cases done c a e (received r x) = cc e
  nil_cases done c a e (was_closed x y) = cc e
  nil_cases done c a e (was_done d) = (refl, d)

  -- After a send to a closed channel nothing can be received.
  recovered_blocks : (a : Awaited R) → ¬ Await false (perform_effect recovered) a
  unfolding perform_effect
  recovered_blocks a w = let d = (nil_cases false _ a refl w).1 in cc d

  -- What the caller waits for, once the worker has handled a message that was sent: one whose
  -- sender gave up, as the own context was done, has no worker.
  unfoldable pub answered : Sent → Bool → R → Option (ResumeCh R)
  unfolding perform_effect resume
  answered sent skip r = some (resume skip r new_resume_ch)
  answered gave_up skip r = perform_effect gave_up
  answered recovered skip r = perform_effect recovered

  gave_up_cases :
      (done : Bool) (c : Option (ResumeCh R)) (a : Awaited R)
      → c ≡ some new_resume_ch
      → Await done c a
      → (a ≡ context_err) × (done ≡ true)
  gave_up_cases done c a same (received {ch = x} q e) =
      let is : x ≡ new_resume_ch = cc same in let no : none ≡ some q = rw is at e in cc no
  gave_up_cases done c a same (was_closed {ch = x} e y) =
      let is : x ≡ new_resume_ch = cc same in let no : false ≡ true = rw is at y in cc no
  gave_up_cases done c a same (was_done d) = (refl, d)

  unanswered :
      (t : Sent) (skip done : Bool) (r : R) (a : Awaited R)
      → Await done (answered t skip r) a
      → ((t ≡ sent) × (a ≡ answer r) × (skip ≡ false))
        ⊎ ((a ≡ context_err) × (done ≡ true))
        ⊎ ((t ≡ sent) × (a ≡ nil_nil) × (skip ≡ true) × (done ≡ false))
  unfolding answered perform_effect
  unanswered sent skip done r a w = elim (resume_cases skip done r a w) [
    | inl (e, s) ↦ inl (refl, e, s)
    | inr (inl c) ↦ inr (inl c)
    | inr (inr (e, s, d)) ↦ inr (inr (refl, e, s, d))
  ]
  unanswered gave_up skip done r a w = inr (inl (gave_up_cases done _ a refl w))
  unanswered recovered skip done r a w = inr (inl (nil_cases done _ a refl w))

  -- Whoever waits for the answer to a resumable message gets the result `r`, if the message was
  -- sent and the worker sent the result of handling it; or the error of the own context, if that is
  -- done; or neither a result nor an error, if the message was sent, the handler's context was done
  -- and the own one is not. The wait for a message that was sent and handled can end: with the
  -- result, if the worker sent it, and else, if the own context lives, with neither a result nor an
  -- error.
  pub Await-cases :
      (t : Sent) (skip done : Bool) (r : R) (a : Awaited R)
      → Await done (answered t skip r) a
      → (((t ≡ sent) × (a ≡ answer r) × (skip ≡ false))
          ⊎ ((a ≡ context_err) × (done ≡ true))
          ⊎ ((t ≡ sent) × (a ≡ nil_nil) × (skip ≡ true) × (done ≡ false)))
        × Await done (answered sent false r) (answer r)
        × Await false (answered sent true r) nil_nil
  unfolding answered resume
  Await-cases t skip done r a w =
      (unanswered t skip done r a w, received r refl, was_closed refl refl)
