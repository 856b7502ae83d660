-- ===== src/Effects/Teardown.antt =====
-- When the teardown functions run (the closing functions that the constructors of
-- effects/resumable_effect.go and effects/fire_and_forget_effect.go return).
use effect_ive_go.Base.{
  ℕ, zero, suc, ◌+◌, ◌≡◌, ◌≢◌, refl, ◌∙◌, ap, inl, inr, Bool, true, false, Option, none, some, List,
  [], ◌∷◌, ◌++◌, ◌==◌, if◌then◌else◌, get_elem?, set, arith, Bool-cases, subst, sym,
  get_elem?-write, is_member,
}
use effect_ive_go.Helper.{ret}
use effect_ive_go.Dispatch.{Dispatcher, Sent, Step}
use effect_ive_go.Effects.{
  Kind, Context, Slot, World, with_handler, close_slot, run_once, end_of_handler, Performs,
  normalize_teardown, performs,
}

-- How often a number stands in a list.
abbrev pub times : ℕ → List ℕ → ℕ
times n [] = 0
times n (m ∷ ms) = (if m == n then 1 else 0) + times n ms

times-append : (n : ℕ) (xs ys : List ℕ) → times n (xs ++ ys) ≡ times n xs + times n ys
times-append n [] ys = omega arith
times-append n (x ∷ xs) ys = omega (arith, times-append n xs ys)

ret_inj {ℓ} : {A : Type ℓ} (a b : A) → ret a ≡ ret b → a ≡ b
ret_inj a b e = cc e

module _ {T : Type 0} where
  abbrev pub closed_slot : Option (Slot T) → Bool
  closed_slot none = false
  closed_slot (some s) = s.closed

  -- A slot after the end of its handler.
  abbrev pub shut : Option (Slot T) → Option (Slot T)
  shut none = none
  shut (some s) = some (if s.closed then s else close_slot s)

  shut-shut : (s : Option (Slot T)) → shut (shut s) ≡ shut s
  shut-shut none = refl
  shut-shut (some s) = elim (Bool-cases s.closed) [
    | inl t ↦ ground (arith, t)
    | inr f ↦ ground (arith, f)
  ]

  closed_slot-shut : (s : Option (Slot T)) (e : s ≢ none) → closed_slot (shut s) ≡ true
  closed_slot-shut none e = absurd (e refl)
  closed_slot-shut (some s) e = elim (Bool-cases s.closed) [
    | inl t ↦ ground (arith, t)
    | inr f ↦ ground (arith, f)
  ]

  -- The closing functions of handlers, called one after another.
  abbrev pub end_all : Context → List ℕ → World T → World T
  end_all pctx [] w = w
  end_all pctx (id ∷ ids) w = end_all pctx ids (end_of_handler pctx id w).1

  run_once-slots :
      (o : Option (Slot T)) (id j : ℕ) (w : World T)
      → get_elem? w.slots id ≡ o
      → get_elem? (run_once o id w).slots j
        ≡ (if id == j then shut (get_elem? w.slots j) else get_elem? w.slots j)
  unfolding run_once
  run_once-slots none id j w e = ground (arith, e)
  run_once-slots (some s) id j w e = elim (Bool-cases s.closed) [
    | inl c ↦ ground (arith, e, c)
    | inr o ↦ let wr = get_elem?-write w.slots id j (close_slot s) s e in ground (arith, e, o, wr)
  ]

  run_once-history :
      (o : Option (Slot T)) (id i : ℕ) (w : World T)
      → get_elem? w.slots id ≡ o
      → times i (run_once o id w).torn_down + (if closed_slot (get_elem? w.slots i) then 1 else 0)
        ≡ times i w.torn_down + (if closed_slot (get_elem? (run_once o id w).slots i) then 1 else 0)
  unfolding run_once
  run_once-history none id i w e = refl
  run_once-history (some s) id i w e = elim (Bool-cases s.closed) [
    | inl c ↦ ground (arith, c)
    | inr o ↦
        let wr = get_elem?-write w.slots id i (close_slot s) s e in
        let count = times-append i w.torn_down (id ∷ []) in ground (arith, e, o, wr, count)
  ]

  -- The history has each closed handler once, and no other.
  abbrev pub IsValid : World T → Type 0
  IsValid w = (i : ℕ) → times i w.torn_down ≡ (if closed_slot (get_elem? w.slots i) then 1 else 0)

  end_of_handler-IsValid :
      (pctx : Context) (id : ℕ) (w : World T) → IsValid w → IsValid (end_of_handler pctx id w).1
  unfolding end_of_handler
  end_of_handler-IsValid pctx id w v i =
      omega (arith, v i, run_once-history (get_elem? w.slots id) id i w refl)

  closed_slot-append_open :
      (xs : List (Slot T)) (s : Slot T) (i : ℕ)
      → s.closed ≡ false
      → closed_slot (get_elem? (xs ++ s ∷ []) i) ≡ closed_slot (get_elem? xs i)
  closed_slot-append_open [] s zero e = e
  closed_slot-append_open [] s (suc i) e = refl
  closed_slot-append_open (x ∷ xs) s zero e = refl
  closed_slot-append_open (x ∷ xs) s (suc i) e = closed_slot-append_open xs s i e

  make-IsValid :
      (queue : Dispatcher T) (td : Option ℕ) (w : World T)
      → IsValid w
      → IsValid (record w {
        slots = w.slots ++ record { dispatcher = queue; closed = false; teardown = td } ∷ [];
      })
  make-IsValid queue td w v i =
      let new : Slot T = record { dispatcher = queue; closed = false; teardown = td } in
      v i ∙ sym (ap (λ b. if b then 1 else 0) (closed_slot-append_open w.slots new i refl))

  with_handler-IsValid :
      (kind : Kind) (payload_type : ℕ) (queue : Dispatcher T) (key : ℕ) (teardown : List ℕ)
      (pctx : Context) (w : World T) (r : Context × ℕ × World T)
      → with_handler kind payload_type queue key teardown pctx w ≡ ret r
      → IsValid w
      → IsValid r.2
  unfolding with_handler normalize_teardown
  with_handler-IsValid kind p queue key [] pctx w r e v =
      subst (λ x. IsValid x.2) (ret_inj _ r e) (make-IsValid queue none w v)
  with_handler-IsValid kind p queue key (td ∷ []) pctx w r e v =
      subst (λ x. IsValid x.2) (ret_inj _ r e) (make-IsValid queue (some td) w v)
  with_handler-IsValid kind p queue key (_ ∷ _ ∷ _) pctx w r e v = cc e

  -- A handler's queue moves on.
  dispatcher-IsValid :
      (id : ℕ) (s : Slot T) (d : Dispatcher T) (w : World T)
      → get_elem? w.slots id ≡ some s
      → IsValid w
      → IsValid (record w { slots = set w.slots id (record s { dispatcher = d }) })
  dispatcher-IsValid id s d w e v i =
      let wr = get_elem?-write w.slots id i (record s { dispatcher = d }) s e in
      ground (arith, e, wr, v i)

  end_of_handler-slots :
      (pctx : Context) (id j : ℕ) (w : World T)
      → get_elem? (end_of_handler pctx id w).1.slots j
        ≡ (if id == j then shut (get_elem? w.slots j) else get_elem? w.slots j)
  unfolding end_of_handler
  end_of_handler-slots pctx id j w = run_once-slots (get_elem? w.slots id) id j w refl

  end_all-slots :
      (pctx : Context) (ids : List ℕ) (j : ℕ) (w : World T)
      → get_elem? (end_all pctx ids w).slots j
        ≡ (if is_member j ids then shut (get_elem? w.slots j) else get_elem? w.slots j)
  end_all-slots pctx [] j w = refl
  end_all-slots pctx (id ∷ ids) j w =
      let now = end_of_handler-slots pctx id j w in
      let later = end_all-slots pctx ids j (end_of_handler pctx id w).1 in
      let again = shut-shut (get_elem? w.slots j) in ground (arith, now, later, again)

  end_all-IsValid :
      (pctx : Context) (ids : List ℕ) (w : World T) → IsValid w → IsValid (end_all pctx ids w)
  end_all-IsValid pctx [] w v = v
  end_all-IsValid pctx (id ∷ ids) w v =
      end_all-IsValid pctx ids (end_of_handler pctx id w).1 (end_of_handler-IsValid pctx id w v)

  -- The worlds that a program comes to: it makes handlers, performs effects on them, their queues
  -- move on, and it calls their closing functions.
  pub data Lives (route : T → Option ℕ) : World T → Type 0 where
    start : Lives route (record { slots = []; torn_down = [] })
    make :
        (kind : Kind) (payload_type : ℕ) (queue : Dispatcher T) (key : ℕ) (teardown : List ℕ)
        (pctx : Context) (w : World T) (r : Context × ℕ × World T)
        → Lives route w
        → with_handler kind payload_type queue key teardown pctx w ≡ ret r
        → Lives route r.2
    perform :
        (kind : Kind) (payload_type : ℕ) (ctx : Context) (key : ℕ) (m : T) (w w' : World T)
        (r : Sent)
        → Lives route w
        → Performs route kind payload_type ctx key m w r w'
        → Lives route w'
    work :
        (id : ℕ) (s : Slot T) (d : Dispatcher T) (w : World T)
        → Lives route w
        → get_elem? w.slots id ≡ some s
        → Step route s.dispatcher d
        → Lives route (record w { slots = set w.slots id (record s { dispatcher = d }) })
    end :
        (pctx : Context) (id : ℕ) (w : World T)
        → Lives route w
        → Lives route (end_of_handler pctx id w).1

  Performs-IsValid :
      (route : T → Option ℕ) (kind : Kind) (payload_type : ℕ) (ctx : Context) (key : ℕ) (m : T)
      (w w' : World T) (r : Sent)
      → Performs route kind payload_type ctx key m w r w'
      → IsValid w
      → IsValid w'
  Performs-IsValid route kind p ctx key m w w' r (performs h s r' d e f g) v =
      dispatcher-IsValid h.effect_id s d w f v

  Lives-IsValid : (route : T → Option ℕ) (w : World T) → Lives route w → IsValid w
  Lives-IsValid route w start = λ i. refl
  Lives-IsValid route w (make kind p queue key td pctx w0 r l e) =
      with_handler-IsValid kind p queue key td pctx w0 r e (Lives-IsValid route w0 l)
  Lives-IsValid route w (perform kind p ctx key m w0 w1 r l e) =
      Performs-IsValid route kind p ctx key m w0 w1 r e (Lives-IsValid route w0 l)
  Lives-IsValid route w (work id s d w0 l e f) =
      dispatcher-IsValid id s d w0 e (Lives-IsValid route w0 l)
  Lives-IsValid route w (end pctx id w0 l) =
      end_of_handler-IsValid pctx id w0 (Lives-IsValid route w0 l)

  -- In every world that a program comes to, closing functions may be called in any order, each any
  -- number of times: afterwards the handlers that one of them belongs to are closed and their
  -- queues cancelled, all others are as they were, and the teardown of each closed handler has run
  -- once in the whole history, that of an open one never.
  pub end_all-once :
      (route : T → Option ℕ) (pctx : Context) (ids : List ℕ) (w : World T)
      → Lives route w
      → (i : ℕ)
      → (get_elem? (end_all pctx ids w).slots i
          ≡ (if is_member i ids then shut (get_elem? w.slots i) else get_elem? w.slots i))
        × (times i (end_all pctx ids w).torn_down
            ≡ (if closed_slot (get_elem? (end_all pctx ids w).slots i) then 1 else 0))
  end_all-once route pctx ids w l i =
      (end_all-slots pctx ids i w, end_all-IsValid pctx ids w (Lives-IsValid route w l) i)
