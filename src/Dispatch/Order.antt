-- ===== src/Dispatch/Order.antt =====
-- The messages of one partition key are handled by one worker, in the order in which the channel
-- took them (effects/internal/handlers).
use mathlib.Core.List.{append_assoc, append-nil}
use effect_ive_go.Base.{
  ℕ, ◌≡◌, ◌≢◌, refl, sym, ap, ◌∙◌, ◌⊎◌, inl, inr, Bool, true, false, Option, none, some, List, [],
  ◌∷◌, ◌++◌, get_elem?, set, get_elem?-set, Bool-cases, if◌then◌else◌,
}
use effect_ive_go.Dispatch.{
  get_index_by_hash, partitioned_channel, Worker, Dispatcher, new_partitioned_queue, Reach, here,
  next, Step, perform, receive, finish, cancel, exit, Perform, buffer, hand_over, caller_done,
  closed_channel, no_channel, Sent,
}
use effect_ive_go.Dispatch.Bounds.{idle-of}

module _ {T : Type 0} where
  -- The messages that pass a test, in their order.
  unfoldable pub only : (T → Bool) → List T → List T
  only p [] = []
  only p (x ∷ xs) = let rest = only p xs in if p x then x ∷ rest else rest

  only-append : (p : T → Bool) (xs ys : List T) → only p (xs ++ ys) ≡ only p xs ++ only p ys
  unfolding only
  only-append p [] ys = refl
  only-append p (x ∷ xs) ys = elim (Bool-cases (p x)) [
    | inl t ↦ rw (t, only-append p xs ys) refl
    | inr f ↦ rw (f, only-append p xs ys) refl
  ]

  abbrev pub in_hand : Option T → List T
  in_hand none = []
  in_hand (some m) = m ∷ []

  -- What a worker still has to finish, in order.
  abbrev pub held : Worker T → List T
  held w = in_hand w.handling ++ w.queued

  module _ (p : T → Bool) (i : ℕ) where
    -- The messages that pass the test are those that worker `i` has finished and then holds.
    record InOrder (d : Dispatcher T) : Type 0 where
      mine :
          (w : Worker T)
          → get_elem? d.workers i ≡ some w
          → only p d.accepted ≡ only p d.handled ++ only p (held w)
      others :
          (j : ℕ) (w : Worker T) → j ≢ i → get_elem? d.workers j ≡ some w → only p (held w) ≡ []

    only-nil : (new bs : List T) → only p (new ++ bs) ≡ [] → (only p new ≡ []) × (only p bs ≡ [])
    unfolding only
    only-nil [] bs e = (refl, e)
    only-nil (x ∷ new) bs e = elim (Bool-cases (p x)) [
      | inl t ↦ let z : x ∷ only p (new ++ bs) ≡ [] = rw t at e in cc z
      | inr f ↦
          let z : only p (new ++ bs) ≡ [] = rw f at e in
          let (l, r) = only-nil new bs z in (rw f l, r)
    ]

    -- A worker takes in the messages `new` and finishes `hs`, and drops or reorders nothing.
    move-InOrder :
        (d e : Dispatcher T) (j : ℕ) (w u : Worker T) (new hs : List T)
        → InOrder d
        → get_elem? d.workers j ≡ some w
        → e.workers ≡ set d.workers j u
        → e.accepted ≡ d.accepted ++ new
        → e.handled ≡ d.handled ++ hs
        → held w ++ new ≡ hs ++ held u
        → (j ≡ i) ⊎ (only p new ≡ [])
        → InOrder e
    move-InOrder d e j w u new hs o at_j ws acc han moved own =
        let none_as : j ≢ i → only p new ≡ [] =
          λ ne. elim own [ inl y ↦ absurd (ne y) | inr z ↦ z ] in
        let left : j ≢ i → (only p hs ≡ []) × (only p (held u) ≡ []) = λ ne. only-nil hs (held u) (
          ap (only p) (sym moved)
          ∙ only-append p (held w) new
          ∙ (rw (o.others j w ne at_j, none_as ne) refl)) in
        record {
          mine = λ x at_i. elim (get_elem?-set d.workers j i u x (rw (← ws) at_i)) [
            | inl (same, is_u) ↦
                let here_w : get_elem? d.workers i ≡ some w = rw (← same) at_j in
                rw (is_u, acc, han, only-append, only-append)
                  (ap (λ l. l ++ only p new) (o.mine w here_w)
                    ∙ append_assoc (only p d.handled) (only p (held w)) (only p new)
                    ∙ ap (λ l. only p d.handled ++ l)
                        (sym (only-append p (held w) new)
                          ∙ ap (only p) moved
                          ∙ only-append p hs (held u))
                    ∙ sym (append_assoc (only p d.handled) (only p hs) (only p (held u))))
            | inr (other, old) ↦
                rw
                  (
                    acc,
                    han,
                    only-append,
                    only-append,
                    none_as other,
                    (left other).0,
                    append-nil,
                    append-nil,
                  )
                  (o.mine x old)
          ];
          others = λ k x ne at_k. elim (get_elem?-set d.workers j k u x (rw (← ws) at_k)) [
            | inl (same, is_u) ↦ rw is_u (left (λ z. ne (sym same ∙ z))).1
            | inr (other, old) ↦ o.others k x ne old
          ];
        }

    module _ (route : T → Option ℕ) (keyed : (m : T) → p m ≡ true → route m ≡ some i) where
      routed : (m : T) (j : ℕ) → route m ≡ some j → (j ≡ i) ⊎ (only p (m ∷ []) ≡ [])
      unfolding only
      routed m j r = elim (Bool-cases (p m)) [
        | inl t ↦ let same : some j ≡ some i = sym r ∙ keyed m t in inl (cc same)
        | inr f ↦ inr (rw f refl)
      ]

      Perform-InOrder :
          {m : T} {s : Sent} {d e : Dispatcher T} → Perform route m d s e → InOrder d → InOrder e
      Perform-InOrder {m = m} {d = d} (buffer j w r at_j o room) inv =
          move-InOrder d _ j w _ (m ∷ []) [] inv at_j refl refl (sym (append-nil _))
            (append_assoc (in_hand w.handling) w.queued (m ∷ [])) (routed m j r)
      Perform-InOrder {m = m} {d = d} (hand_over j w r at_j o q h) inv =
          move-InOrder d _ j w _ (m ∷ []) [] inv at_j refl refl (sym (append-nil _))
            (rw (h, q) refl) (routed m j r)
      Perform-InOrder (caller_done j r) inv = inv
      Perform-InOrder (closed_channel j w r at_j x) inv = inv
      Perform-InOrder (no_channel r) inv = inv

      Step-InOrder : {d e : Dispatcher T} → Step route d e → InOrder d → InOrder e
      unfolding only
      Step-InOrder (perform m r s) inv = Perform-InOrder s inv
      Step-InOrder {d = d} (receive j w m ms at_j o h q) inv =
          move-InOrder d _ j w _ [] [] inv at_j refl (sym (append-nil _)) (sym (append-nil _))
            (rw (h, q, append-nil) refl) (inr refl)
      Step-InOrder {d = d} (finish j w m at_j h) inv =
          move-InOrder d _ j w _ [] (m ∷ []) inv at_j refl (sym (append-nil _)) refl
            (rw (h, append-nil) refl) (inr refl)
      Step-InOrder cancel inv = record { mine = inv.mine; others = inv.others }
      Step-InOrder {d = d} (exit j w at_j c o h) inv =
          move-InOrder d _ j w _ [] [] inv at_j refl (sym (append-nil _)) (sym (append-nil _))
            (append-nil _) (inr refl)

      fresh-InOrder : (n size : ℕ) → InOrder (new_partitioned_queue n size)
      unfolding new_partitioned_queue only
      fresh-InOrder n size = record {
        mine = λ w e. rw (idle-of n i w e) refl;
        others = λ j w ne e. rw (idle-of n j w e) refl;
      }

      Reach-InOrder :
          (n size : ℕ) {d : Dispatcher T} → Reach route (new_partitioned_queue n size) d → InOrder d
      Reach-InOrder n size here = fresh-InOrder n size
      Reach-InOrder n size (next r s) = Step-InOrder s (Reach-InOrder n size r)

true_of_dec {ℓ} : {A : Type ℓ} (d : Dec A) → elim d [ yes e ↦ true | no ne ↦ false ] ≡ true → A
true_of_dec (yes e) z = e
true_of_dec (no ne) z = cc z

module _ {ℓ} {P : Type ℓ} {T : Type 0} (hash : P → ℕ) (dec : Discrete P)
    (partition_key : T → P) where
  abbrev pub has_key : P → T → Bool
  has_key key m = elim (dec (partition_key m) key) [ yes e ↦ true | no ne ↦ false ]

  -- In a partitioned queue, whatever its callers, workers and context have done: the messages of
  -- one partition key that channels took are, in the order they were taken, those that are handled,
  -- in the order they were, followed by those that the worker of the key holds. So none is lost,
  -- repeated, overtaken, or handled elsewhere.
  pub partitioned-in_order :
      (n size i : ℕ) (key : P) (d : Dispatcher T) (w : Worker T)
      → Reach (partitioned_channel hash partition_key n) (new_partitioned_queue n size) d
      → get_index_by_hash hash key n ≡ some i
      → get_elem? d.workers i ≡ some w
      → only (has_key key) d.accepted ≡ only (has_key key) d.handled ++ only (has_key key) (held w)
  unfolding partitioned_channel
  partitioned-in_order n size i key d w r is_i at_i =
      let keyed : (m : T)
          → has_key key m ≡ true
          → get_index_by_hash hash (partition_key m) n ≡ some i =
        λ m z. rw (true_of_dec (dec (partition_key m) key) z) is_i in
      (Reach-InOrder (has_key key) i _ keyed n size r).mine w at_i
