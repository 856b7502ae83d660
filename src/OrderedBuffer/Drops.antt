-- ===== src/OrderedBuffer/Drops.antt =====
-- `OrderByEffect` when its context may end at any of its selects: what is dropped.
use mathlib.Core.List.{append_assoc, append-nil, Perm, perm_middle, perm_append_comm}
use mathlib.Core.List.Perm
use effect_ive_go.Base.{
  ℕ, zero, suc, ◌≡◌, refl, ap, inl, inr, Bool, Bool-cases, true, false, Option, none, some, List,
  [], ◌∷◌, ◌++◌, length, take, drop, subst,
}
use effect_ive_go.OrderedBuffer.{
  Buffer, Compare, evict, send, search, goes_before, insert_at, insert, insert_all, flush, close,
  forward, order_by, Selects, living, new_ordered_bounded_buffer,
}
use effect_ive_go.OrderedBuffer.Window.{accepted, evict-cases}
use effect_ive_go.OrderedBuffer.Stream.{search-le, insert_at-perm, order_by-perm}

module _ {ℓ} {T : Type ℓ} where
  take-append-drop : (n : ℕ) (xs : List T) → take n xs ++ drop n xs ≡ xs
  take-append-drop zero xs = refl
  take-append-drop (suc n) [] = refl
  take-append-drop (suc n) (x ∷ xs) = ap (◌∷◌ x) (take-append-drop n xs)

  -- The elements `kept` are those of `all_`, but for some that are dropped.
  abbrev pub Within : List T → List T → Type ℓ
  Within kept all_ = (dropped : List T) × Perm (kept ++ dropped) all_

  Within-perm : (xs ys : List T) → Perm xs ys → Within xs ys
  Within-perm xs ys p = ([], rw append-nil p)

  Within-trans : (xs ys zs : List T) → Within xs ys → Within ys zs → Within xs zs
  Within-trans xs ys zs (d, p) (e, q) =
      (d ++ e, rw (← append_assoc) (Perm.trans (Perm.append p (Perm.refl e)) q))

  Within-append : (xs ys zs : List T) → Within xs ys → Within (xs ++ zs) (ys ++ zs)
  Within-append xs ys zs (d, p) = (
    d,
    rw append_assoc (
        Perm.trans (Perm.append (Perm.refl xs) (perm_append_comm zs d))
          (rw (← append_assoc) (Perm.append p (Perm.refl zs)))),
  )

  forward-Within : (dones : ℕ → Bool) (xs : List T) → Within (forward dones xs) xs
  unfolding forward
  forward-Within dones [] = Within-perm [] [] (Perm.refl [])
  forward-Within dones (x ∷ xs) =
      let (d, p) = forward-Within (λ i. dones (suc i)) xs in
      elim (Bool-cases (dones 0)) [
        | inl lost ↦ rw lost (x ∷ d, Perm.trans (perm_middle _ d) (Perm.cons x p))
        | inr kept ↦ rw kept (d, Perm.cons x p)
      ]

  -- The eviction's select.
  sent_or_lost-Within :
      (done : Bool) (x : T) (out r all_ : List T)
      → Perm (out ++ x ∷ r) all_
      → Within (send done (some x) out ++ r) all_
  sent_or_lost-Within true x out r all_ p = (
    x ∷ [],
    Perm.trans (perm_middle (out ++ r) [])
        (rw append-nil (Perm.trans (Perm.symm (perm_middle out r)) p)),
  )
  sent_or_lost-Within false x out r all_ p = Within-perm _ _ (rw append_assoc p)

  insert-Within :
      (cmp : Compare T) (done : Bool) (v : T) (b : Buffer T)
      → b.closed ≡ false
      → Within (accepted (insert cmp done v b).1) (v ∷ accepted b)
        × ((insert cmp done v b).1.closed ≡ false)
  unfolding insert
  insert-Within cmp done v b o =
      let idx = search (length b.contents) (goes_before cmp v b.contents) in
      let grown =
        Perm.trans
          (Perm.append (Perm.refl b.sent)
            (insert_at-perm idx v b.contents (search-le _ (length b.contents))))
          (perm_middle b.sent b.contents) in
      rw o (elim (evict-cases b.max_buf_len (insert_at idx v b.contents)) [
        | inl (fits, e) ↦ rw (e, evict) (Within-perm _ _ grown, refl)
        | inr (x, r, e, over, ev) ↦ rw ev (
          sent_or_lost-Within done x b.sent r _
              (subst (λ xs. Perm (b.sent ++ xs) (v ∷ accepted b)) e grown),
          refl,
        )
      ])

  insert_all-Within :
      (cmp : Compare T) (dones : ℕ → Bool) (vs : List T) (b : Buffer T)
      → b.closed ≡ false
      → Within (accepted (insert_all cmp dones vs b)) (accepted b ++ vs)
        × ((insert_all cmp dones vs b).closed ≡ false)
  unfolding insert_all
  insert_all-Within cmp dones [] b o = (Within-perm _ _ (rw append-nil (Perm.refl _)), o)
  insert_all-Within cmp dones (v ∷ vs) b o =
      let (one, open_) = insert-Within cmp (dones 0) v b o in
      let c = (insert cmp (dones 0) v b).1 in
      let (rest, still) = insert_all-Within cmp (λ i. dones (suc i)) vs c open_ in
      let two = Within-trans _ _ _ rest (Within-append (accepted c) (v ∷ accepted b) vs one) in
      (Within-trans _ _ _ two (Within-perm _ _ (Perm.symm (perm_middle (accepted b) vs))), still)

  close-Within :
      (stop : Option ℕ) (b : Buffer T) → b.closed ≡ false → Within (close stop b).sent (accepted b)
  unfolding close flush
  close-Within none b o = rw o (Within-perm _ _ (Perm.refl _))
  close-Within (some stop) b o =
      rw o (drop stop b.contents, rw (append_assoc, take-append-drop stop b.contents) (Perm.refl _))

  -- `OrderByEffect` on a source that is closed after `source`, for any window and any comparison:
  -- wherever its selects take the case of the context, the sink receives elements of the source,
  -- each at most as often as it stood there; while the context lives it receives all of them, each
  -- as often, and is closed.
  pub order_by-Within :
      (n : ℕ) (cmp : Compare T) (selects : Selects) (source : List T)
      → Within (order_by n cmp selects source).0 source
        × Perm (order_by n cmp living source).0 source
        × ((order_by n cmp living source).1 ≡ true)
  unfolding order_by new_ordered_bounded_buffer
  order_by-Within n cmp selects source =
      let b = new_ordered_bounded_buffer n in
      let (all_in, open_) = insert_all-Within cmp selects.inserts source b refl in
      let buf = insert_all cmp selects.inserts source b in
      let flushed = close-Within selects.stop buf open_ in
      let (alive, closed) = order_by-perm n cmp source in
      (
        Within-trans _ _ _ (forward-Within selects.forwards (close selects.stop buf).sent)
            (Within-trans _ _ _ flushed all_in),
        alive,
        closed,
      )
